-- ===== src/BackingStore/Resize.antt =====
-- `ResizeInPlace` of patches/v8/modified-files/src/objects/backing-store.cc, on the length and the bytes
-- of a store that is not shared.
use webtsan.Prelude.{
  sym, subst, ==_iff, ℕ, ◌-◌, ◌≤◌, ◌<◌, ◌==◌, ◌≡◌, refl, Bool, Option, none, some, if◌then◌else◌,
  ltb, arith, Outcome, ok, check_failed, Returns, if-cases, ltb→lt, ltb→le,
}
use webtsan.BackingStore.Grow.{ResizeOrGrowResult, k_success, k_failure, k_race}
use webtsan.ExternalRefs.Bytes.{set_bytes}

pub record Content : Type 0 where
  pub byte_length : ℕ
  pub bytes : ℕ → ℕ

-- The rounding of a length to pages, none where that is too large, and whether the system makes a range
-- of pages accessible or not.
module _ (round_up : ℕ → Option ℕ) (commits decommits : (from_page to_page : ℕ) → Bool) where
  abbrev zeroed : Content → ℕ → Content
  zeroed c new = record c { bytes = set_bytes c.bytes new 0 (c.byte_length - new) }

  abbrev pub shrink : Content → (new new_pages old_pages : ℕ) → ResizeOrGrowResult × Content
  shrink c new new_pages old_pages =
      if ltb new_pages old_pages
      then (if decommits new_pages old_pages
          then (k_success, record (zeroed c new) { byte_length = new })
          else (k_failure, zeroed c new))
      else (k_success, record (zeroed c new) { byte_length = new })

  abbrev pub extend : Content → (new new_pages : ℕ) → ResizeOrGrowResult × Content
  extend c new new_pages =
      if new == c.byte_length
      then (k_success, c)
      else if commits 0 new_pages
      then (k_success, record c { byte_length = new })
      else (k_failure, c)

  abbrev pub resize_to : Content → (new new_pages : ℕ) → Outcome (ResizeOrGrowResult × Content)
  resize_to c new new_pages =
      if ltb new c.byte_length
      then elim (round_up c.byte_length) [
        | none ↦ check_failed
        | some old_pages ↦ ok (shrink c new new_pages old_pages)
      ]
      else ok (extend c new new_pages)

  unfoldable pub resize_in_place : Content → ℕ → Outcome (ResizeOrGrowResult × Content)
  resize_in_place c new = elim (round_up new) [
    | none ↦ check_failed
    | some new_pages ↦ resize_to c new new_pages
  ]

-- Beyond its length a store has only zeros.
abbrev pub IsCleared : Content → Type 0
IsCleared c = (i : ℕ) → c.byte_length ≤ i → c.bytes i ≡ 0

-- The first bytes stay.
abbrev pub IsResized : Content → ℕ → ResizeOrGrowResult × Content → Type 0
IsResized c new (k_success, d) =
    (d.byte_length ≡ new) × IsCleared d × ((i : ℕ) → i < new → d.bytes i ≡ c.bytes i)
IsResized c new (k_failure, d) =
    (d.byte_length ≡ c.byte_length) × IsCleared d × ((i : ℕ) → i < new → d.bytes i ≡ c.bytes i)
IsResized c new (k_race, d) = ⊥

at_some :
    (o : Option ℕ) (k : ℕ) (f : ℕ → Outcome (ResizeOrGrowResult × Content))
    (Q : Outcome (ResizeOrGrowResult × Content) → Type 0)
    → o ≡ some k
    → Q (f k)
    → Q (elim o [ none ↦ check_failed | some k ↦ f k ])
at_some o k f Q h q =
    subst (λ (u : Option ℕ). Q (elim u [ none ↦ check_failed | some k ↦ f k ])) (sym h) q

set_bytes-IsCleared :
    (c : Content) (new i : ℕ)
    → IsCleared c
    → new ≤ i
    → set_bytes c.bytes new 0 (c.byte_length - new) i ≡ 0
set_bytes-IsCleared c new i cleared h = ground (arith, cleared i)

set_bytes-first :
    (c : Content) (new i : ℕ)
    → i < new
    → set_bytes c.bytes new 0 (c.byte_length - new) i ≡ c.bytes i
set_bytes-first c new i h = ground arith

-- Where the lengths can be rounded, and the bytes beyond the length of the store are zero, the call
-- returns. With success the store has the new length, with failure the old one, and in both cases the
-- bytes beyond are zero and the bytes below the new length are as they were.
pub resize_in_place-IsResized :
    (round_up : ℕ → Option ℕ) (commits decommits : (from_page to_page : ℕ) → Bool) (c : Content)
    (new old_pages new_pages : ℕ)
    → round_up c.byte_length ≡ some old_pages
    → round_up new ≡ some new_pages
    → IsCleared c
    → Returns (IsResized c new) (resize_in_place round_up commits decommits c new)
unfolding resize_in_place
resize_in_place-IsResized round_up commits decommits c new old_pages new_pages o n cleared =
    let P : ResizeOrGrowResult × Content → Type 0 = IsResized c new in
    let Q : Outcome (ResizeOrGrowResult × Content) → Type 0 = Returns P in
    let zero_tail : (i : ℕ) → new ≤ i → set_bytes c.bytes new 0 (c.byte_length - new) i ≡ 0 =
      λ i. set_bytes-IsCleared c new i cleared in
    let first : (i : ℕ) → i < new → set_bytes c.bytes new 0 (c.byte_length - new) i ≡ c.bytes i =
      set_bytes-first c new in
    at_some (round_up new) new_pages (resize_to round_up commits decommits c new) Q n (
      if-cases Q (ltb new c.byte_length)
        (λ l.
          at_some (round_up c.byte_length) old_pages
            (λ k. ok (shrink round_up commits decommits c new new_pages k)) Q o
            (if-cases P (ltb new_pages old_pages)
              (λ _.
                if-cases P (decommits new_pages old_pages) (λ _. (refl, zero_tail, first))
                  (λ _. (refl, λ i h. zero_tail i (let b = ltb→lt _ _ l in omega arith), first)))
              (λ _. (refl, zero_tail, first))))
        (λ l.
          if-cases P (new == c.byte_length)
            (λ e. (sym ((==_iff new c.byte_length).0 e), cleared, λ i h. refl))
            (λ e.
              if-cases P (commits 0 new_pages)
                (λ _. (refl, λ i h. cleared i (let b = ltb→le _ _ l in omega arith), λ i h. refl))
                (λ _. (refl, cleared, λ i h. refl)))))
