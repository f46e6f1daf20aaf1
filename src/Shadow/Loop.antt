-- ===== src/Shadow/Loop.antt =====
-- The loop of `RecordAccess`: it stops at the first byte with a conflict, and writes up to there.
use native.Mathlib.Decide.{dec_lt, ℕ_discrete}
use webtsan.Prelude.{
  ℕ, zero, suc, ◌+◌, ◌^◌, ◌<◌, ◌≤◌, ◌≡◌, Bool, Option, none, some, arith, lt→ltb, le→ltb, inl, inr,
  u64, min, subst,
}
use webtsan.Clock.{VClock}
use webtsan.Shadow.{ShadowBuffer, RaceReport, record_byte, record_loop, record_access}
use webtsan.Shadow.Races.{IsQuiet, record_byte-cases}
use webtsan.Shadow.Access.{
  record_byte-SameStore, Marks, Marks-none, Marks-one, Marks-trans, stop_of, Answers, IsQuiet-Marks,
  Describes-Marks,
}

module _ (tid : ℕ) (w : Bool) (clock : VClock) where
  -- A call that answers `answer` and leaves `after`, over the bytes from `lo` to below `end`.
  pub record Recorded (before : ShadowBuffer) (lo end : ℕ) (after : ShadowBuffer)
      (answer : Option RaceReport) : Type 0 where
    pub answers : Answers tid w clock before lo end answer
    pub marks : Marks before after tid w clock lo (stop_of tid w clock answer end)

  module _ (offset : ℕ) where
    abbrev loop : ℕ → ℕ → ShadowBuffer → ShadowBuffer × Option RaceReport
    loop n i b = record_loop n i b offset tid w clock

    abbrev byte_step : ℕ → ShadowBuffer → ShadowBuffer × Option RaceReport
    byte_step i b = record_byte b (offset + i) tid w clock

    loop-stop :
        (n i : ℕ) (b : ShadowBuffer)
        → offset + i < 2 ^ 64
        → b.byte_length ≤ offset + i
        → loop (suc n) i b ≡ (b, none)
    unfolding record_loop
    loop-stop n i b fits h =
        let e : u64 (offset + i) ≡ offset + i = omega arith in
        rw (e, le→ltb (offset + i) b.byte_length h)

    loop-race :
        (n i : ℕ) (b : ShadowBuffer) (r : RaceReport)
        → offset + i < 2 ^ 64
        → offset + i < b.byte_length
        → (byte_step i b).1 ≡ some r
        → loop (suc n) i b ≡ ((byte_step i b).0, some r)
    unfolding record_loop
    loop-race n i b r fits h e =
        let e' : u64 (offset + i) ≡ offset + i = omega arith in
        simp (e', lt→ltb (offset + i) b.byte_length h, e)

    loop-next :
        (n i : ℕ) (b : ShadowBuffer)
        → offset + i < 2 ^ 64
        → offset + i < b.byte_length
        → (byte_step i b).1 ≡ none
        → loop (suc n) i b ≡ loop n (suc i) (byte_step i b).0
    unfolding record_loop
    loop-next n i b fits h e =
        let e' : u64 (offset + i) ≡ offset + i = omega arith in
        simp (e', lt→ltb (offset + i) b.byte_length h, e)

    Recorded-next :
        (lo end : ℕ) (b d e : ShadowBuffer) (answer : Option RaceReport)
        → lo < end
        → IsQuiet b lo tid w clock
        → Marks b d tid w clock lo (lo + 1)
        → Recorded d (lo + 1) end e answer
        → Recorded b lo end e answer
    Recorded-next lo end b d e none lt q m s = record {
      answers = λ j x y. elim (ℕ_discrete lo j) [
        | yes same ↦ rw (← same) q
        | no other ↦
            IsQuiet-Marks tid w clock b d lo (lo + 1) j m (omega arith)
              (s.answers j (omega arith) y)
      ];
      marks = Marks-trans tid w clock b d e lo (lo + 1) end (omega arith) (omega arith) m s.marks;
    }
    Recorded-next lo end b d e (some r) lt q m s = record {
      answers = (
        omega (arith, s.answers.0),
        s.answers.1,
        Describes-Marks tid w clock b d lo (lo + 1) r m s.answers.0 s.answers.2,
        λ j x y. elim (ℕ_discrete lo j) [
          | yes same ↦ rw (← same) q
          | no other ↦
              IsQuiet-Marks tid w clock b d lo (lo + 1) j m (omega arith)
                (s.answers.3 j (omega arith) y)
        ],
      );
      marks =
          Marks-trans tid w clock b d e lo (lo + 1) (r.sab_offset + 1) (omega arith)
            (omega (arith, s.answers.0)) m s.marks;
    }

    Recorded-move :
        (b d : ShadowBuffer) (answer : Option RaceReport) (lo lo' end end' : ℕ)
        → lo ≡ lo'
        → end ≡ end'
        → Recorded b lo end d answer
        → Recorded b lo' end' d answer
    Recorded-move b d answer lo lo' end end' p q h =
        subst (λ x. Recorded b lo' x d answer) q (subst (λ x. Recorded b x end d answer) p h)

    ends :
        (n i : ℕ) (b : ShadowBuffer)
        → min (offset + suc i + n) (byte_step i b).0.byte_length
          ≡ min (offset + i + suc n) b.byte_length
    ends n i b = rw ((record_byte-SameStore b (offset + i) tid w clock).same_length) (omega arith)

    lengths :
        (i : ℕ) (b : ShadowBuffer) → b.byte_length < 2 ^ 64 → (byte_step i b).0.byte_length < 2 ^ 64
    lengths i b h = rw ((record_byte-SameStore b (offset + i) tid w clock).same_length) h

    loop-Recorded :
        (n i : ℕ) (b : ShadowBuffer)
        → offset + i < 2 ^ 64
        → b.byte_length < 2 ^ 64
        → Recorded b (offset + i) (min (offset + i + n) b.byte_length) (loop n i b).0 (loop n i b).1
    unfolding record_loop
    loop-Recorded zero i b fits small = record {
      answers = λ j x y. absurd (omega arith);
      marks = Marks-none tid w clock b _ _ (omega arith);
    }
    loop-Recorded (suc n) i b fits small = elim (dec_lt (offset + i) b.byte_length) [
      | no past ↦ rw (loop-stop n i b fits (omega arith)) (record {
        answers = λ j x y. absurd (omega arith);
        marks = Marks-none tid w clock b _ _ (omega arith);
      })
      | yes inside ↦ elim (record_byte-cases b (offset + i) tid w clock) [
        | inl (e, quiet) ↦ rw (loop-next n i b fits inside e) (
            Recorded-next (offset + i) (min (offset + i + suc n) b.byte_length) b (byte_step i b).0
              _ _ (omega arith) quiet (Marks-one tid w clock b (offset + i))
              (Recorded-move _ _ _ _ _ _ _ (omega arith) (ends n i b)
                (loop-Recorded n (suc i) (byte_step i b).0 (omega arith) (lengths i b small))))
        | inr (r, e, at, d) ↦ rw (loop-race n i b r fits inside e) (record {
          answers = (omega arith, omega arith, d, λ j x y. absurd (omega arith));
          marks = rw at (Marks-one tid w clock b (offset + i));
        })
      ]
    ]

  -- Where offset and length are values of size_t, `RecordAccess` reports a race exactly when a byte of
  -- the access, within the buffer, has a cell of another thread that conflicts with the access and is
  -- not ordered before it. The report describes such a conflict at the first such byte. The access
  -- is then written at each byte up to and including that one, or at all bytes of the access
  -- within the buffer, in the slot of its thread, and all other cells stay as they were.
  pub record_access-Recorded :
      (b : ShadowBuffer) (offset size : ℕ)
      → offset < 2 ^ 64
      → b.byte_length < 2 ^ 64
      → let result = record_access b offset size tid w clock in
        Recorded b offset (min (offset + size) b.byte_length) result.0 result.1
  unfolding record_access
  record_access-Recorded b offset size fits small =
      Recorded-move offset _ _ _ _ _ _ _ (omega arith) (omega arith)
        (loop-Recorded offset size 0 b (omega arith) small)
