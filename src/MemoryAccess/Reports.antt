-- ===== src/MemoryAccess/Reports.antt =====
-- What `MemoryAccess` does: the check of the access, and the report.
use webtsan.Prelude.{
  ℕ, ◌+◌, ◌^◌, ◌<◌, ◌≤◌, ◌≡◌, ◌≢◌, refl, Bool, true, false, Option, some, none, not, arith, ◌==◌,
  min, u64, Returns, lt→ltb, if-cases, Returns-map, subst, ap, ◌∙◌, insert, ==_iff,
}
use webtsan.Clock.{k_max_threads}
use webtsan.Shadow.{ShadowBuffer, RaceReport, record_access, shadow_buffer}
use webtsan.Shadow.Cells.{length-shadow_buffer}
use webtsan.Shadow.Races.{IsQuiet}
use webtsan.Shadow.Access.{Answers}
use webtsan.Shadow.Loop.{Recorded, record_access-Recorded}
use webtsan.Detector.{WebTSan}
use webtsan.Buffers.Results.{get_or_create_shadow_found, get_or_create_shadow_new}
use webtsan.Caller.{Caller, with_tsan}
use webtsan.MemoryAccess.{memory_access, check_access, site_key, report_race}
use webtsan.MemoryAccess.Told.{
  IsSilent, IsToldOnce, Tells, report_race-Tells, report_race-SameDetector,
}

-- `y` is `x` after an access to a buffer: the buffer holds what `RecordAccess` makes of it, and the caller
-- is told what `RecordAccess` answers.
pub record IsChecked (x : Caller) (b : ShadowBuffer) (s offset size tid : ℕ) (w : Bool) (y : Caller)
    : Type 0 where
  pub shadow : ShadowBuffer
  pub answer : Option RaceReport
  pub stored : y.tsan.shadow_buffers s ≡ some shadow
  pub recorded :
      Recorded tid w
        (x.tsan.thread_clocks tid)
        b
        offset
        (min (offset + size) b.byte_length)
        shadow
        answer
  pub told : Tells x s answer y
  pub clocks : y.tsan.thread_clocks ≡ x.tsan.thread_clocks
  pub still : y.tsan.enabled ≡ x.tsan.enabled

-- The access is counted.
abbrev counted_state : Caller → WebTSan
counted_state x = record (x.tsan) { accesses_checked = u64 (x.tsan.accesses_checked + 1) }

module _ (s offset size tid : ℕ) (w : Bool) (h : tid < k_max_threads) (fits : offset < 2 ^ 64) where
  -- The state in which a report is made: the counter of accesses and the buffers are new.
  abbrev checked : Caller → ℕ → (ℕ → Option ShadowBuffer) → Caller
  checked x count buffers =
      with_tsan x (record (x.tsan) { accesses_checked = count; shadow_buffers = buffers })

  IsToldOnce-checked :
      (seen : Bool) (x : Caller) (count : ℕ) (buffers : ℕ → Option ShadowBuffer) (r : RaceReport)
      (y : Caller)
      → IsToldOnce seen (checked x count buffers) s r y
      → IsToldOnce seen x s r y
  IsToldOnce-checked true x count buffers r y p = record {
    same_count = p.same_count;
    same_sites = p.same_sites;
    same_locals = p.same_locals;
    same_events = p.same_events;
  }
  IsToldOnce-checked false x count buffers r y p = record {
    counted = p.counted;
    noted = p.noted;
    pending = p.pending;
    text = p.text;
    first = p.first;
    sent = p.sent;
  }

  answered :
      (x : Caller) (count : ℕ) (buffers : ℕ → Option ShadowBuffer) (b d : ShadowBuffer)
      (answer : Option RaceReport)
      → buffers s ≡ some d
      → Recorded tid w
          (x.tsan.thread_clocks tid)
          b
          offset
          (min (offset + size) b.byte_length)
          d
          answer
      → IsChecked x b s offset size tid w (elim answer as (λ _. Caller) [
        | none ↦ checked x count buffers
        | some r ↦ report_race (checked x count buffers) s r
      ])
  answered x count buffers b d none e p = record {
    shadow = d;
    answer = none;
    stored = e;
    recorded = p;
    told = record { same_count = refl; same_sites = refl; same_locals = refl; same_events = refl };
    clocks = refl;
    still = refl;
  }
  answered x count buffers b d (some r) e p = record {
    shadow = d;
    answer = some r;
    stored =
        ap (λ k. k s) (report_race-SameDetector (checked x count buffers) s r).same_buffers ∙ e;
    recorded = p;
    told =
        IsToldOnce-checked (x.tsan.reported_race_sites (site_key s r.sab_offset)) x count buffers r
          _ (report_race-Tells (checked x count buffers) s r);
    clocks = (report_race-SameDetector (checked x count buffers) s r).same_clocks;
    still = (report_race-SameDetector (checked x count buffers) s r).same_enabled;
  }

  check_access-IsChecked :
      (x : Caller) (count : ℕ) (buffers : ℕ → Option ShadowBuffer) (b : ShadowBuffer)
      → b.byte_length < 2 ^ 64
      → Returns
          (IsChecked x b s offset size tid w)
          (check_access (checked x count buffers) b s offset size tid w)
  unfolding check_access
  check_access-IsChecked x count buffers b small = rw (lt→ltb tid 64 h) (
      answered x count
        (insert buffers s (record_access b offset size tid w (x.tsan.thread_clocks tid)).0) b _ _
        (ground arith)
        (record_access-Recorded tid w (x.tsan.thread_clocks tid) b offset size fits small))

  -- While the detector is enabled and the thread has a slot, for an offset of size_t and a buffer that is
  -- there, below 2^64 bytes: the access returns, and the buffer and the caller
  -- are as `RecordAccess` answers, whatever length of the buffer the hook knows.
  pub memory_access-IsChecked :
      (x : Caller) (len : ℕ) (b : ShadowBuffer)
      → x.tsan.enabled ≡ true
      → x.tsan.shadow_buffers s ≡ some b
      → b.byte_length < 2 ^ 64
      → Returns (IsChecked x b s offset size tid w) (memory_access x s len offset size tid w)
  unfolding memory_access
  memory_access-IsChecked x len b on e small =
      if-cases (Returns (IsChecked x b s offset size tid w)) (not x.tsan.enabled) (λ q. cc (on, q))
        (λ _.
          if-cases (Returns (IsChecked x b s offset size tid w)) (len == 0)
            (λ _. rw e (check_access-IsChecked x _ x.tsan.shadow_buffers b small))
            (λ _.
              rw (get_or_create_shadow_found (counted_state x) s len b e)
                (check_access-IsChecked x _ x.tsan.shadow_buffers b small)))

  -- The same for an access that makes the buffer, of the length that the hook knows.
  pub memory_access-IsChecked_new :
      (x : Caller) (len : ℕ)
      → x.tsan.enabled ≡ true
      → x.tsan.shadow_buffers s ≡ none
      → len ≢ 0
      → len < 2 ^ 64
      → Returns
          (IsChecked x (shadow_buffer s len) s offset size tid w)
          (memory_access x s len offset size tid w)
  unfolding memory_access
  memory_access-IsChecked_new x len on e some_length small =
      if-cases (Returns (IsChecked x (shadow_buffer s len) s offset size tid w))
        (not x.tsan.enabled) (λ q. cc (on, q))
        (λ _.
          if-cases (Returns (IsChecked x (shadow_buffer s len) s offset size tid w)) (len == 0)
            (λ q. absurd (some_length ((==_iff len 0).0 q)))
            (λ _. rw (get_or_create_shadow_new (counted_state x) s len e) (
              check_access-IsChecked x _ (insert x.tsan.shadow_buffers s (shadow_buffer s len))
                (shadow_buffer s len) (rw (length-shadow_buffer s len) small))))

  -- While the detector is enabled and the thread has a slot, for an offset of size_t and a buffer that is
  -- there, below 2^64 bytes: an access that conflicts with no cell of its bytes within the buffer
  -- returns and tells nothing.
  pub memory_access-IsSilent :
      (x : Caller) (len : ℕ) (b : ShadowBuffer)
      → x.tsan.enabled ≡ true
      → x.tsan.shadow_buffers s ≡ some b
      → b.byte_length < 2 ^ 64
      → ((j : ℕ)
          → offset ≤ j
          → j < min (offset + size) b.byte_length
          → IsQuiet b j tid w (x.tsan.thread_clocks tid))
      → Returns (IsSilent x) (memory_access x s len offset size tid w)
  memory_access-IsSilent x len b on e small quiet =
      Returns-map (IsChecked x b s offset size tid w) (IsSilent x)
        (memory_access x s len offset size tid w) (λ y p. silent y p p.answer refl)
        (memory_access-IsChecked x len b on e small)
    where
      silent :
          (y : Caller) (p : IsChecked x b s offset size tid w y) (answer : Option RaceReport)
          → p.answer ≡ answer
          → IsSilent x y
      silent y p none is = subst (λ o. Tells x s o y) is p.told
      silent y p (some r) is =
          let a : Answers tid w (x.tsan.thread_clocks tid) b offset
              (min (offset + size) b.byte_length) (some r) =
            subst
              (Answers tid w (x.tsan.thread_clocks tid) b offset
                (min (offset + size) b.byte_length))
              is p.recorded.answers in
          absurd (quiet r.sab_offset a.0 a.1 a.2.cell a.2.in_byte a.2.conflict)
