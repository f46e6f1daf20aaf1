-- ===== src/Shadow/Access.antt =====
-- `RecordAccess` over the bytes of an access: the report is the first conflict, and what is written.
use native.Mathlib.Decide.{dec_lt}
use webtsan.Prelude.{
  ℕ, ◌+◌, ◌%◌, ◌<◌, ◌≤◌, ◌≡◌, ◌≢◌, refl, ap, ◌∙◌, Bool, Option, none, some, arith, subst,
}
use webtsan.Clock.{VClock}
use webtsan.Shadow.{ShadowCell, ShadowBuffer, RaceReport, race_report, record_byte}
use webtsan.Shadow.Cells.{cell_at, access_cell, cell_at-record_byte_self, cell_at-record_byte_other}
use webtsan.Shadow.Races.{Conflicts, IsQuiet, Describes}

-- Two buffers of one backing store, of one length.
pub record SameStore (b d : ShadowBuffer) : Type 0 where
  pub same_store : d.backing_store ≡ b.backing_store
  pub same_length : d.byte_length ≡ b.byte_length
  pub same_stripes : d.stripes ≡ b.stripes

pub record_byte-SameStore :
    (b : ShadowBuffer) (byte tid : ℕ) (w : Bool) (clock : VClock)
    → SameStore b (record_byte b byte tid w clock).0
unfolding record_byte
record_byte-SameStore b byte tid w clock = record {
  same_store = refl;
  same_length = refl;
  same_stripes = refl;
}

-- `d` is `b` with the access written at the bytes from `lo` to below `hi`, in the slot of the thread,
-- and with all other cells as they were.
pub record Marks (b d : ShadowBuffer) (tid : ℕ) (w : Bool) (clock : VClock) (lo hi : ℕ)
    : Type 0 where
  pub store : SameStore b d
  pub inside : (j : ℕ) → lo ≤ j → j < hi → cell_at d j (tid % 2) ≡ access_cell tid w clock
  pub outside : (j c : ℕ) → c < 2 → (lo ≤ j → j < hi → tid % 2 ≢ c) → cell_at d j c ≡ cell_at b j c

module _ (tid : ℕ) (w : Bool) (clock : VClock) where
  pub Marks-none : (b : ShadowBuffer) (lo hi : ℕ) → hi ≤ lo → Marks b b tid w clock lo hi
  Marks-none b lo hi h = record {
    store = record { same_store = refl; same_length = refl; same_stripes = refl };
    inside = λ j p q. absurd (omega arith);
    outside = λ j c lt ne. refl;
  }

  pub Marks-one :
      (b : ShadowBuffer) (byte : ℕ)
      → Marks b (record_byte b byte tid w clock).0 tid w clock byte (byte + 1)
  Marks-one b byte = record {
    store = record_byte-SameStore b byte tid w clock;
    inside = λ j p q.
        let e : byte ≡ j = omega arith in rw (← e) (cell_at-record_byte_self b byte tid w clock);
    outside = λ j c lt ne.
        cell_at-record_byte_other b byte tid w clock j c lt (λ e. ne (omega arith) (omega arith));
  }

  pub Marks-trans :
      (b d e : ShadowBuffer) (lo mid hi : ℕ)
      → lo ≤ mid
      → mid ≤ hi
      → Marks b d tid w clock lo mid
      → Marks d e tid w clock mid hi
      → Marks b e tid w clock lo hi
  Marks-trans b d e lo mid hi l m p q = record {
    store = record {
      same_store = q.store.same_store ∙ p.store.same_store;
      same_length = q.store.same_length ∙ p.store.same_length;
      same_stripes = q.store.same_stripes ∙ p.store.same_stripes;
    };
    inside = λ j x y. elim (dec_lt j mid) [
      | yes lt ↦ q.outside j (tid % 2) (omega arith) (λ z _. absurd (omega arith)) ∙ p.inside j x lt
      | no ge ↦ q.inside j (omega arith) y
    ];
    outside = λ j c lt ne.
        q.outside j c lt (λ x y. ne (omega arith) y) ∙ p.outside j c lt (λ x y. ne x (omega arith));
  }

  -- The byte behind the last one that is written.
  abbrev pub stop_of : Option RaceReport → ℕ → ℕ
  stop_of none end = end
  stop_of (some r) end = r.sab_offset + 1

  -- What the answer of the loop says of the bytes from `lo` to below `end`.
  abbrev pub Answers : ShadowBuffer → ℕ → ℕ → Option RaceReport → Type 0
  Answers b lo end none = (j : ℕ) → lo ≤ j → j < end → IsQuiet b j tid w clock
  Answers b lo end (some r) =
      (lo ≤ r.sab_offset)
      × (r.sab_offset < end)
      × Describes b tid w clock r
      × ((j : ℕ) → lo ≤ j → j < r.sab_offset → IsQuiet b j tid w clock)

  pub IsQuiet-Marks :
      (b d : ShadowBuffer) (lo hi j : ℕ)
      → Marks b d tid w clock lo hi
      → hi ≤ j
      → IsQuiet d j tid w clock
      → IsQuiet b j tid w clock
  IsQuiet-Marks b d lo hi j m h q c lt f =
      q c lt (rw (m.outside j c lt (λ x y. absurd (omega arith))) f)

  race_report-SameStore :
      (b d : ShadowBuffer) (byte : ℕ) (cell : ShadowCell)
      → SameStore b d
      → race_report d byte cell tid w clock ≡ race_report b byte cell tid w clock
  unfolding race_report
  race_report-SameStore b d byte cell s = rw (s.same_store, s.same_length)

  pub Describes-Marks :
      (b d : ShadowBuffer) (lo hi : ℕ) (r : RaceReport)
      → Marks b d tid w clock lo hi
      → hi ≤ r.sab_offset
      → Describes d tid w clock r
      → Describes b tid w clock r
  Describes-Marks b d lo hi r m h q = record {
    cell = q.cell;
    in_byte = q.in_byte;
    conflict = subst (λ x. Conflicts x tid w clock) same q.conflict;
    is_report =
        q.is_report
        ∙ race_report-SameStore b d r.sab_offset (cell_at d r.sab_offset q.cell) m.store
        ∙ ap (λ x. race_report b r.sab_offset x tid w clock) same;
  }
    where
      same : cell_at d r.sab_offset q.cell ≡ cell_at b r.sab_offset q.cell
      same = m.outside r.sab_offset q.cell q.in_byte (λ x y. absurd (omega arith))
