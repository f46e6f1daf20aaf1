-- ===== src/Shadow/Pairs.antt =====
-- Two accesses of a buffer, one after the other.
use native.Mathlib.Decide.{dec_lt}
use webtsan.Prelude.{
  ℕ, ◌%◌, ◌<◌, ◌≤◌, ◌≡◌, ◌≢◌, refl, Bool, true, Option, some, none, arith, ◌⊎◌, subst, sym,
}
use webtsan.Clock.{VClock, get}
use webtsan.Shadow.{ShadowBuffer, RaceReport}
use webtsan.Shadow.Cells.{cell_at}
use webtsan.Shadow.Races.{Conflicts}
use webtsan.Shadow.Access.{Answers}
use webtsan.Shadow.Loop.{Recorded}

Answers-some :
    (tid : ℕ) (w : Bool) (clock : VClock) (b : ShadowBuffer) (lo end k c : ℕ)
    → c < 2
    → lo ≤ k
    → k < end
    → Conflicts (cell_at b k c) tid w clock
    → (answer : Option RaceReport) → Answers tid w clock b lo end answer
    → (r : RaceReport) × (answer ≡ some r) × (r.sab_offset ≤ k)
Answers-some tid w clock b lo end k c lt from to f none quiet = absurd (quiet k from to c lt f)
Answers-some tid w clock b lo end k c lt from to f (some r) (_, _, _, quiet) = (
  r,
  refl,
  elim (dec_lt k r.sab_offset) [
    | yes before ↦ absurd (quiet k from before c lt f)
    | no here ↦ omega arith
  ],
)

-- An access is recorded without a report, and then another one. If both are at a byte of the buffer, by
-- different threads, one of them writes, and the clock of the second does not know of the epoch of the
-- first, then the second is reported, at that byte or at one before it.
pub Recorded-twice :
    (b d e : ShadowBuffer) (k tid1 tid2 lo1 end1 lo2 end2 : ℕ) (w1 w2 : Bool)
    (clock1 clock2 : VClock) (answer : Option RaceReport)
    → lo1 ≤ k
    → k < end1
    → lo2 ≤ k
    → k < end2
    → tid1 ≢ tid2
    → (w1 ≡ true) ⊎ (w2 ≡ true)
    → get clock2 tid1 < get clock1 tid1
    → Recorded tid1 w1 clock1 b lo1 end1 d none
    → Recorded tid2 w2 clock2 d lo2 end2 e answer
    → (r : RaceReport) × (answer ≡ some r) × (r.sab_offset ≤ k)
Recorded-twice b d e k tid1 tid2 lo1 end1 lo2 end2 w1 w2 clock1 clock2 answer from1 to1 from2 to2 ne
      writes unordered one two =
    Answers-some tid2 w2 clock2 d lo2 end2 k (tid1 % 2) (omega arith) from2 to2
      (subst (λ x. Conflicts x tid2 w2 clock2) (sym (one.marks.inside k from1 to1))
        (record { occupied = refl; foreign = ne; writes = writes; unordered = unordered }))
      answer two.answers
