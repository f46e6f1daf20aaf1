-- ===== src/Shadow/Races.antt =====
-- What `RecordAccess` reports.
use native.Mathlib.Decide.{ℕ_discrete}
use webtsan.Prelude.{
  ℕ, zero, suc, ◌+◌, ◌<◌, ◌≤◌, ◌≡◌, ◌≢◌, refl, Bool, true, false, none, some, arith, ◌⊎◌, inl, inr,
  Bool-cases,
}
use webtsan.Clock.{VClock, get}
use webtsan.Shadow.{
  ShadowCell, ShadowPage, ShadowBuffer, RaceReport, page_of, page_index, in_page_offset,
  in_page_shadow_index, races, scan_cells, race_report, record_byte,
}
use webtsan.Shadow.Cells.{cell_at}

-- The access of a cell and one by `tid` conflict, and the clock does not know of the former: they are by
-- different threads, one of them writes, and the epoch of the former is beyond the clock.
pub record Conflicts (cell : ShadowCell) (tid : ℕ) (is_write : Bool) (clock : VClock) : Type 0 where
  pub occupied : cell.valid ≡ true
  pub foreign : cell.tid ≢ tid
  pub writes : (cell.is_write ≡ true) ⊎ (is_write ≡ true)
  pub unordered : get clock cell.tid < cell.epoch

races-Conflicts :
    (cell : ShadowCell) (tid : ℕ) (w : Bool) (clock : VClock)
    → races cell tid w clock ≡ true
    → Conflicts cell tid w clock
unfolding races
races-Conflicts cell tid w clock h = ground arith

Conflicts-races :
    (cell : ShadowCell) (tid : ℕ) (w : Bool) (clock : VClock)
    → Conflicts cell tid w clock
    → races cell tid w clock ≡ true
unfolding races
Conflicts-races cell tid w clock h = ground arith

-- No cell of a byte conflicts with the access.
abbrev pub IsQuiet : ShadowBuffer → ℕ → ℕ → Bool → VClock → Type 0
IsQuiet b byte tid w clock = (c : ℕ) → c < 2 → ¬ Conflicts (cell_at b byte c) tid w clock

-- A report describes a conflict of the access with a cell of the byte that it names.
pub record Describes (b : ShadowBuffer) (tid : ℕ) (is_write : Bool) (clock : VClock)
    (r : RaceReport) : Type 0 where
  pub cell : ℕ
  pub in_byte : cell < 2
  pub conflict : Conflicts (cell_at b r.sab_offset cell) tid is_write clock
  pub is_report : r ≡ race_report b r.sab_offset (cell_at b r.sab_offset cell) tid is_write clock

module _ (page : ShadowPage) (in_page tid : ℕ) (w : Bool) (clock : VClock) where
  abbrev cell_in : ℕ → ShadowCell
  cell_in c = page.cells (in_page_shadow_index in_page c)

  -- The scan stops at the first cell that races.
  scan-cases :
      (n c : ℕ)
      → ((scan_cells n c page in_page tid w clock ≡ none)
          × ((d : ℕ) → c ≤ d → d < c + n → races (cell_in d) tid w clock ≡ false))
        ⊎ ((d : ℕ) × (d < c + n)
            × (races (cell_in d) tid w clock ≡ true)
            × (scan_cells n c page in_page tid w clock ≡ some (cell_in d)))
  unfolding scan_cells
  scan-cases zero c = inl (refl, λ d lo hi. absurd (omega arith))
  scan-cases (suc n) c = elim (Bool-cases (races (cell_in c) tid w clock)) [
    | inl hit ↦ inr (c, omega arith, hit, rw hit)
    | inr miss ↦ elim (scan-cases n (suc c)) [
      | inl (e, quiet) ↦ inl (
        rw miss e,
        λ d lo hi. elim (ℕ_discrete c d) [
          | yes same ↦ rw (← same) miss
          | no other ↦ quiet d (omega arith) (omega arith)
        ],
      )
      | inr (d, lt, hit, e) ↦ inr (d, omega arith, hit, rw miss e)
    ]
  ]

pub record_byte-cases :
    (b : ShadowBuffer) (byte tid : ℕ) (w : Bool) (clock : VClock)
    → (((record_byte b byte tid w clock).1 ≡ none) × IsQuiet b byte tid w clock)
      ⊎ ((r : RaceReport) × ((record_byte b byte tid w clock).1 ≡ some r)
          × (r.sab_offset ≡ byte)
          × Describes b tid w clock r)
unfolding record_byte
record_byte-cases b byte tid w clock =
    elim (scan-cases (page_of (b.pages (page_index byte))) (in_page_offset byte) tid w clock 2 0) [
      | inl (e, quiet) ↦ inl (
        rw (e, record_byte),
        λ c lt f. cc (quiet c (omega arith) (omega arith), Conflicts-races _ tid w clock f),
      )
      | inr (d, lt, hit, e) ↦ inr (
        race_report b byte (cell_at b byte d) tid w clock,
        rw (e, record_byte),
        unfold race_report in refl,
        unfold race_report in
            record {
              cell = d;
              in_byte = omega arith;
              conflict = races-Conflicts _ tid w clock hit;
              is_report = refl;
            },
      )
    ]
