-- ===== src/MemoryAccess/Epochs.antt =====
-- A memory access keeps the invariant of the epochs: the cells that it writes hold an epoch that the
-- thread has reached.
use webtsan.Prelude.{
  ℕ, ◌+◌, ◌%◌, ◌^◌, ◌<◌, ◌≤◌, ◌≡◌, ◌≢◌, Bool, Option, some, none, not, arith, refl, sym,
  Option-cases, if-cases, inl, inr, List, ◌==◌, subst, min, Outcome, Returns, lt→ltb, u64,
}
use native.Mathlib.Decide.{ℕ_discrete, dec_lt}
use webtsan.Clock.{VClock, k_max_threads}
use webtsan.Shadow.{ShadowBuffer, RaceReport, record_access}
use webtsan.Shadow.Cells.{cell_at}
use webtsan.Shadow.Access.{Marks}
use webtsan.Shadow.Loop.{Recorded, record_access-Recorded}
use webtsan.Detector.{WebTSan}
use webtsan.Epochs.{CellIsReached, CellsAreReached, EpochsAreReached}
use webtsan.Buffers.Epochs.{insert_buffer-EpochsAreReached, get_or_create_shadow-EpochsAreReached}
use webtsan.Caller.{Caller, with_tsan}
use webtsan.Report.{to_string}
use webtsan.MemoryAccess.{memory_access, check_access, site_key, report_race, log_first, call_back}

-- The counters and the record of what has been reported play no part.
EpochsAreReached-counters :
    (t : WebTSan) (sites : ℕ → Bool) (races checked : ℕ) (first : Bool)
    → EpochsAreReached t
    → EpochsAreReached (record t {
      reported_race_sites = sites;
      races_detected = races;
      accesses_checked = checked;
      first_race_logged = first;
    })
EpochsAreReached-counters t sites races checked first v = record {
  next_small = v.next_small;
  threads = v.threads;
  orphan = v.orphan;
  syncs = v.syncs;
  edges = v.edges;
  retired = v.retired;
  sizes = v.sizes;
  cells = v.cells;
}

log_first-EpochsAreReached :
    (x : Caller) (msg : List ℕ) → EpochsAreReached x.tsan → EpochsAreReached (log_first x msg).tsan
unfolding log_first
log_first-EpochsAreReached x msg v =
    if-cases (λ (y : Caller). EpochsAreReached y.tsan) x.tsan.first_race_logged (λ _. v)
      (λ _. EpochsAreReached-counters x.tsan _ _ _ _ v)

call_back-EpochsAreReached :
    (x : Caller) (r : RaceReport) → EpochsAreReached x.tsan → EpochsAreReached (call_back x r).tsan
unfolding call_back
call_back-EpochsAreReached x r v =
    if-cases (λ (y : Caller). EpochsAreReached y.tsan) x.tsan.race_callback (λ _. v) (λ _. v)

report_race-EpochsAreReached :
    (x : Caller) (s : ℕ) (r : RaceReport)
    → EpochsAreReached x.tsan
    → EpochsAreReached (report_race x s r).tsan
unfolding report_race
report_race-EpochsAreReached x s r v =
    if-cases (λ (y : Caller). EpochsAreReached y.tsan)
      (x.tsan.reported_race_sites (site_key s r.sab_offset)) (λ _. v)
      (λ _.
        call_back-EpochsAreReached _ r
          (log_first-EpochsAreReached _ (to_string r) (EpochsAreReached-counters x.tsan _ _ _ _ v)))

Marks-CellsAreReached :
    (k : ℕ → VClock) (b d : ShadowBuffer) (tid : ℕ) (w : Bool) (lo hi : ℕ)
    → tid < k_max_threads
    → Marks b d tid w (k tid) lo hi
    → CellsAreReached k b
    → CellsAreReached k d
Marks-CellsAreReached k b d tid w lo hi h m v j c lt set = elim (ℕ_discrete (tid % 2) c) [
  | no ne ↦ kept (λ _ _. ne)
  | yes e ↦ elim (dec_lt j lo) [
    | yes before ↦ kept (λ x y. absurd (omega arith))
    | no after ↦ elim (dec_lt j hi) [
      | no past ↦ kept (λ x y. absurd (omega arith))
      | yes below ↦
          subst (λ x. CellIsReached k (cell_at d j x) x) e
            (rw (m.inside j (omega arith) below)
              (record { thread = h; slot_of_thread = refl; reached = omega arith }))
    ]
  ]
]
  where
    kept : (lo ≤ j → j < hi → tid % 2 ≢ c) → CellIsReached k (cell_at d j c) c
    kept out =
        let same = m.outside j c lt out in
        subst (λ x. CellIsReached k x c) (sym same) (v j c lt (rw (← same) set))

module _ (s offset size tid : ℕ) (w : Bool) (h : tid < k_max_threads) (fits : offset < 2 ^ 64) where
  check_access-EpochsAreReached :
      (x : Caller) (b : ShadowBuffer)
      → EpochsAreReached x.tsan
      → x.tsan.shadow_buffers s ≡ some b
      → Returns (λ y. EpochsAreReached y.tsan) (check_access x b s offset size tid w)
  unfolding check_access
  check_access-EpochsAreReached x b v e = rw (lt→ltb tid 64 h) (
      reported _
        (insert_buffer-EpochsAreReached x.tsan v s _
          (rw (done.marks.store.same_length) (v.sizes s b e))
          (Marks-CellsAreReached x.tsan.thread_clocks b _ tid w _ _ h done.marks (v.cells s b e)))
        (record_access b offset size tid w (x.tsan.thread_clocks tid)).1)
    where
      done :
          Recorded tid w
            (x.tsan.thread_clocks tid)
            b
            offset
            (min (offset + size) b.byte_length)
            (record_access b offset size tid w (x.tsan.thread_clocks tid)).0
            (record_access b offset size tid w (x.tsan.thread_clocks tid)).1
      done =
          record_access-Recorded tid w (x.tsan.thread_clocks tid) b offset size fits
            (let q = v.sizes s b e in omega arith)

      reported :
          (y : Caller)
          → EpochsAreReached y.tsan
          → (race : Option RaceReport)
          → EpochsAreReached
              (elim race as (λ _. Caller) [ none ↦ y | some r ↦ report_race y s r ]).tsan
      reported y u none = u
      reported y u (some r) = report_race-EpochsAreReached y s r u

  -- A memory access of a thread with a slot, in a buffer below 2^63 bytes.
  pub memory_access-EpochsAreReached :
      (x : Caller) (len : ℕ)
      → len < 2 ^ 63
      → EpochsAreReached x.tsan
      → Returns (λ y. EpochsAreReached y.tsan) (memory_access x s len offset size tid w)
  unfolding memory_access
  memory_access-EpochsAreReached x len small v =
      if-cases P (not x.tsan.enabled) (λ _. v)
        (λ _.
          if-cases P (len == 0)
            (λ _. elim (Option-cases (x.tsan.shadow_buffers s)) [
              | inl e ↦ rw e counted
              | inr (b, e) ↦ rw e (check_access-EpochsAreReached (with_tsan x _) b counted e)
            ])
            (λ _.
              let (u, found) = get_or_create_shadow-EpochsAreReached _ counted s len small in
              check_access-EpochsAreReached (with_tsan x _) _ u found))
    where
      P : Outcome Caller → Type 0
      P = Returns (λ y. EpochsAreReached y.tsan)

      counted :
          EpochsAreReached
            (record (x.tsan) { accesses_checked = u64 (x.tsan.accesses_checked + 1) })
      counted = EpochsAreReached-counters x.tsan _ _ _ _ v
