-- ===== src/BackingStore/Grow/Exchange.antt =====
-- What the loop of `GrowWasmMemoryInPlace` comes to.
use webtsan.Prelude.{
  Bool-cases, ==_iff, ◌≢◌, ℕ, ◌+◌, ◌-◌, ◌*◌, ◌/◌, ◌≤◌, ◌<◌, ◌==◌, ◌≡◌, ◌⊎◌, inl, inr, refl, sym,
  Bool, true, false, not, List, [], ◌∷◌, ltb, min, arith, if-cases, ltb→le, ltb→lt,
}
use webtsan.BackingStore.Grow.{
  k_wasm_page_size, Turn, exchanges, Growth, grown, refused, pending, grow_turn, grow_loop,
  grow_wasm_memory_in_place,
}

-- Some turn has the property.
abbrev pub Some : (Turn → Type 0) → List Turn → Type 0
Some P [] = ⊥
Some P (r ∷ rs) = P r ⊎ Some P rs

-- A turn with the permission, whose exchange does not fail, compares a length of so many pages, and sets
-- the one for as many more as are asked for, within the limit.
abbrev pub IsExchange : (delta limit old_pages new_length : ℕ) → Turn → Type 0
IsExchange delta limit p n r =
    (r.permitted ≡ true)
    × (r.spurious ≡ false)
    × (p ≡ r.present / k_wasm_page_size)
    × (n ≡ (p + delta) * k_wasm_page_size)
    × (p + delta ≤ limit)

-- The length is one at which the growth is beyond the limit.
abbrev pub IsBeyond : (delta limit length : ℕ) → Type 0
IsBeyond delta limit l = limit < l / k_wasm_page_size + delta

abbrev pub IsRefusal : (delta limit : ℕ) → Turn → Type 0
IsRefusal delta limit r = (r.permitted ≡ false) ⊎ IsBeyond delta limit r.present

-- Each turn finds another length than the one that was read last, or fails without a reason.
abbrev pub AllFailed : ℕ → List Turn → Type 0
AllFailed old [] = Unit
AllFailed old (r ∷ rs) = ((r.present ≢ old) ⊎ (r.spurious ≡ true)) × AllFailed r.present rs

abbrev pub IsGrowth : (delta limit : ℕ) → List Turn → ℕ → Growth → Type 0
IsGrowth delta limit turns old (grown p n) = Some (IsExchange delta limit p n) turns
IsGrowth delta limit turns old refused =
    IsBeyond delta limit old ⊎ Some (IsRefusal delta limit) turns
IsGrowth delta limit turns old pending = AllFailed old turns

IsGrowth-later :
    (delta limit : ℕ) (r : Turn) (rs : List Turn) (old : ℕ) (g : Growth)
    → (r.present ≢ old) ⊎ (r.spurious ≡ true)
    → IsGrowth delta limit rs r.present g
    → IsGrowth delta limit (r ∷ rs) old g
IsGrowth-later delta limit r rs old (grown p n) f h = inr h
IsGrowth-later delta limit r rs old refused f (inl h) = inr (inl (inr h))
IsGrowth-later delta limit r rs old refused f (inr h) = inr (inr h)
IsGrowth-later delta limit r rs old pending f h = (f, h)

not-true : (b : Bool) → not b ≡ true → b ≡ false
not-true true h = sym h
not-true false h = refl

not-false : (b : Bool) → not b ≡ false → b ≡ true
not-false true h = refl
not-false false h = sym h

exchanges-present : (r : Turn) (old : ℕ) → exchanges r old ≡ true → r.present ≡ old
exchanges-present r old h = ground arith

exchanges-spurious : (r : Turn) (old : ℕ) → exchanges r old ≡ true → r.spurious ≡ false
exchanges-spurious r old h = ground arith

exchanges_fail :
    (r : Turn) (old : ℕ) → exchanges r old ≡ false → (r.present ≢ old) ⊎ (r.spurious ≡ true)
exchanges_fail r old h = elim (Bool-cases r.spurious) [
  | inl e ↦ inr e
  | inr e ↦ inl (λ same. cc ((==_iff r.present old).1 same, e, h))
]

grow_loop-IsGrowth :
    (delta limit : ℕ) (turns : List Turn) (old : ℕ)
    → delta ≤ limit
    → IsGrowth delta limit turns old (grow_loop delta limit turns old)
unfolding grow_loop grow_turn
grow_loop-IsGrowth delta limit [] old le = tt
grow_loop-IsGrowth delta limit (r ∷ rs) old le =
    let P : Growth → Type 0 = IsGrowth delta limit (r ∷ rs) old in
    if-cases P (ltb (limit - delta) (old / k_wasm_page_size))
      (λ h. inl (let l = ltb→lt _ _ h in omega arith))
      (λ h.
        if-cases P (not r.permitted) (λ n. inr (inl (inl (not-true _ n))))
          (λ n.
            if-cases P (exchanges r old)
              (λ e. inl (
                let same = exchanges-present r old e in
                let fits = ltb→le _ _ h in
                (
                  not-false _ n,
                  exchanges-spurious r old e,
                  omega (arith, same),
                  refl,
                  omega arith,
                )))
              (λ e.
                IsGrowth-later delta limit r rs old (grow_loop delta limit rs r.present)
                  (exchanges_fail r old e) (grow_loop-IsGrowth delta limit rs r.present le))))

-- The pages that the maximum and the capacity allow.
abbrev pub page_limit : (byte_capacity max_pages : ℕ) → ℕ
page_limit byte_capacity max_pages = min max_pages (byte_capacity / k_wasm_page_size)

-- A growth by some pages that the limit allows is one exchange: where it returns the length before, in
-- pages, a turn with the permission, whose exchange does not fail, compared that length and set the one
-- for as many pages more, within the limit. Where it refuses, the length at the start or one that was seen
-- is too near to the limit, or a turn had no permission. Where the turns end first, each of them found
-- another length than the one read last, or failed without a reason.
pub grow_wasm_memory_in_place-IsGrowth :
    (byte_capacity old delta max_pages : ℕ) (turns : List Turn)
    → 0 < delta
    → IsGrowth delta
        (page_limit byte_capacity max_pages)
        turns
        old
        (grow_wasm_memory_in_place byte_capacity old delta max_pages turns)
unfolding grow_wasm_memory_in_place
grow_wasm_memory_in_place-IsGrowth byte_capacity old delta max_pages turns positive =
    let limit = page_limit byte_capacity max_pages in
    let P : Growth → Type 0 = IsGrowth delta limit turns old in
    if-cases P (delta == 0) (λ h. absurd (ground arith))
      (λ h.
        if-cases P (ltb limit delta) (λ l. inl (let b = ltb→lt _ _ l in omega arith))
          (λ l. grow_loop-IsGrowth delta limit turns old (ltb→le _ _ l)))
