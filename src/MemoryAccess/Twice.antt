-- ===== src/MemoryAccess/Twice.antt =====
-- Two memory accesses, one after the other.
use webtsan.Prelude.{
  ℕ, ◌+◌, ◌^◌, ◌<◌, ◌≤◌, ◌≡◌, ◌≢◌, refl, Bool, true, some, arith, ◌⊎◌, inl, inr, min, Returns,
  Returns-map, ◌∙◌, subst, Option-cases,
}
use webtsan.Clock.{k_max_threads, get}
use webtsan.Shadow.{ShadowBuffer, RaceReport}
use webtsan.Shadow.Races.{Describes}
use webtsan.Shadow.Access.{Answers}
use webtsan.Shadow.Loop.{Recorded}
use webtsan.Shadow.Pairs.{Recorded-twice}
use webtsan.Epochs.{own}
use webtsan.Caller.{Caller}
use webtsan.MemoryAccess.{memory_access}
use webtsan.MemoryAccess.Told.{IsSilent, IsTold, Tells}
use webtsan.MemoryAccess.Reports.{IsChecked, memory_access-IsChecked}

-- From `x` to `y` an access tells of a race: a conflict with a cell of the buffer, which is told unless its
-- site was reported before.
pub record TellsRace (x : Caller) (s tid : ℕ) (w : Bool) (y : Caller) : Type 0 where
  pub buffer : ShadowBuffer
  pub report : RaceReport
  pub there : x.tsan.shadow_buffers s ≡ some buffer
  pub described : Describes buffer tid w (x.tsan.thread_clocks tid) report
  pub told : Tells x s (some report) y

IsChecked-TellsRace :
    (x y : Caller) (b : ShadowBuffer) (s offset size tid : ℕ) (w : Bool)
    → x.tsan.shadow_buffers s ≡ some b
    → (p : IsChecked x b s offset size tid w y) → (r : RaceReport) → p.answer ≡ some r
    → (t : TellsRace x s tid w y) × (t.report ≡ r)
IsChecked-TellsRace x y b s offset size tid w e p r is = (
  record {
    buffer = b;
    report = r;
    there = e;
    described =
        (subst
          (Answers tid w (x.tsan.thread_clocks tid) b offset (min (offset + size) b.byte_length)) is
          p.recorded.answers).2;
    told = subst (λ o. Tells x s o y) is p.told;
  },
  refl,
)

-- The first access, from `x` to `y`, tells of a race, or the second one, to `z`, does, at a byte up to
-- `k`, where the first one told nothing.
abbrev pub OneTells : Caller → ℕ → ℕ → ℕ → ℕ → Bool → Bool → Caller → Caller → Type 0
OneTells x s k a b w1 w2 y z =
    TellsRace x s a w1 y ⊎ (IsSilent x y × (t : TellsRace y s b w2 z) × (t.report.sab_offset ≤ k))

module _ (x : Caller) (s k a b offset1 size1 offset2 size2 len1 len2 : ℕ) (w1 w2 : Bool)
    (buffer : ShadowBuffer) where
  one_tells :
      (y z : Caller)
      → x.tsan.shadow_buffers s ≡ some buffer
      → offset1 ≤ k
      → k < offset1 + size1
      → offset2 ≤ k
      → k < offset2 + size2
      → k < buffer.byte_length
      → a ≢ b
      → (w1 ≡ true) ⊎ (w2 ≡ true)
      → get (x.tsan.thread_clocks b) a < own x.tsan a
      → (p : IsChecked x buffer s offset1 size1 a w1 y)
      → IsChecked y p.shadow s offset2 size2 b w2 z
      → OneTells x s k a b w1 w2 y z
  one_tells y z there lo1 hi1 lo2 hi2 inside ne writes unordered p q =
      elim (Option-cases p.answer) [
        | inr (r, e) ↦ inl (IsChecked-TellsRace x y buffer s offset1 size1 a w1 there p r e).0
        | inl e ↦
            let same = p.recorded.marks.store.same_length in
            let (r, is, low) =
              Recorded-twice buffer p.shadow q.shadow k a b offset1 end1 offset2
                (min (offset2 + size2) p.shadow.byte_length) w1 w2 (x.tsan.thread_clocks a)
                (y.tsan.thread_clocks b) q.answer lo1 (omega arith) lo2 (omega (arith, same)) ne
                writes (rw p.clocks unordered)
                (subst (Recorded a w1 (x.tsan.thread_clocks a) buffer offset1 end1 p.shadow) e
                  p.recorded)
                q.recorded in
            let (t, at) = IsChecked-TellsRace y z p.shadow s offset2 size2 b w2 p.stored q r is in
            inr (subst (λ o. Tells x s o y) e p.told, t, rw at low)
      ]
    where
      end1 : ℕ
      end1 = min (offset1 + size1) buffer.byte_length

  -- While the detector is enabled and both threads have a slot, for offsets of size_t and a buffer
  -- that is there, below 2^64 bytes: when two threads access a byte of the buffer one after the
  -- other, one of the accesses is a write, and the second thread does not know of the epoch of
  -- the first, then both calls return, and the first finds a race, or the second does, at that byte or
  -- at one before it. The race is told unless its site was reported before.
  pub memory_access-TellsRace :
      x.tsan.enabled ≡ true
      → x.tsan.shadow_buffers s ≡ some buffer
      → buffer.byte_length < 2 ^ 64
      → a < k_max_threads
      → b < k_max_threads
      → offset1 ≤ k
      → k < offset1 + size1
      → offset2 ≤ k
      → k < offset2 + size2
      → k < buffer.byte_length
      → a ≢ b
      → (w1 ≡ true) ⊎ (w2 ≡ true)
      → get (x.tsan.thread_clocks b) a < own x.tsan a
      → Returns
          (λ y.
            Returns (λ z. OneTells x s k a b w1 w2 y z) (memory_access y s len2 offset2 size2 b w2))
          (memory_access x s len1 offset1 size1 a w1)
  memory_access-TellsRace on there small ha hb lo1 hi1 lo2 hi2 inside ne writes unordered =
      Returns-map (IsChecked x buffer s offset1 size1 a w1) _
        (memory_access x s len1 offset1 size1 a w1)
        (λ y p.
          Returns-map (IsChecked y p.shadow s offset2 size2 b w2) _
            (memory_access y s len2 offset2 size2 b w2)
            (λ z q. one_tells y z there lo1 hi1 lo2 hi2 inside ne writes unordered p q)
            (memory_access-IsChecked s offset2 size2 b w2 hb (omega arith) y len2 p.shadow
              (p.still ∙ on) p.stored (rw p.recorded.marks.store.same_length small)))
        (memory_access-IsChecked s offset1 size1 a w1 ha (omega arith) x len1 buffer on there small)

-- From `x` to `y` an access tells of a race: a conflict with a cell of the buffer, which is counted,
-- noted, left to the thread as a text, and called back.
pub record TellsNewRace (x : Caller) (s tid : ℕ) (w : Bool) (y : Caller) : Type 0 where
  pub buffer : ShadowBuffer
  pub report : RaceReport
  pub there : x.tsan.shadow_buffers s ≡ some buffer
  pub described : Describes buffer tid w (x.tsan.thread_clocks tid) report
  pub told : IsTold x s report y

abbrev pub OneTellsNew : Caller → ℕ → ℕ → ℕ → ℕ → Bool → Bool → Caller → Caller → Type 0
OneTellsNew x s k a b w1 w2 y z =
    TellsNewRace x s a w1 y ⊎ ((t : TellsNewRace y s b w2 z) × (t.report.sab_offset ≤ k))
