-- ===== src/BackingStore/Grow/Order.antt =====
-- Several calls of `GrowWasmMemoryInPlace` on one store, and the end of its loop.
use webtsan.Prelude.{
  ℕ, ◌+◌, ◌-◌, ◌*◌, ◌/◌, ◌≤◌, ◌<◌, ◌==◌, ◌≡◌, ◌⊎◌, inl, inr, subst, true, false, not, List, [], ◌∷◌,
  ◌++◌, ltb, arith, if-cases,
}
use webtsan.BackingStore.Grow.{
  k_wasm_page_size, Turn, exchanges, Growth, grown, refused, pending, grow_turn, grow_loop,
  grow_wasm_memory_in_place,
}
use webtsan.BackingStore.Grow.Exchange.{
  Some, IsExchange, IsGrowth, page_limit, grow_wasm_memory_in_place-IsGrowth,
}

-- Every length that a turn compares is as large as this.
abbrev pub SeesFrom : ℕ → List Turn → Type 0
SeesFrom n [] = Unit
SeesFrom n (r ∷ rs) = (n ≤ r.present) × SeesFrom n rs

IsExchange-from :
    (delta limit p n bound : ℕ) (turns : List Turn)
    → SeesFrom bound turns
    → Some (IsExchange delta limit p n) turns
    → bound / k_wasm_page_size ≤ p
IsExchange-from delta limit p n bound [] b h = absurd h
IsExchange-from delta limit p n bound (r ∷ rs) (b, bs) (inl h) =
    let same = h.2 in omega (arith, b, same)
IsExchange-from delta limit p n bound (r ∷ rs) (b, bs) (inr h) =
    IsExchange-from delta limit p n bound rs bs h

IsExchange-length :
    (delta limit p n : ℕ) (turns : List Turn)
    → Some (IsExchange delta limit p n) turns
    → n ≡ (p + delta) * k_wasm_page_size
IsExchange-length delta limit p n [] h = absurd h
IsExchange-length delta limit p n (r ∷ rs) (inl h) = h.3
IsExchange-length delta limit p n (r ∷ rs) (inr h) = IsExchange-length delta limit p n rs h

grown-IsExchange :
    (capacity old delta max_pages p n : ℕ) (turns : List Turn)
    → 0 < delta
    → grow_wasm_memory_in_place capacity old delta max_pages turns ≡ grown p n
    → Some (IsExchange delta (page_limit capacity max_pages) p n) turns
grown-IsExchange capacity old delta max_pages p n turns positive h =
    subst (IsGrowth delta (page_limit capacity max_pages) turns old) h
      (grow_wasm_memory_in_place-IsGrowth capacity old delta max_pages turns positive)

-- Of two growths of one store, each by some pages, where the second compares lengths no smaller than
-- the one that the first set, the length that the second returns is beyond the length that the first
-- returns by all the pages of the first.
pub grow_wasm_memory_in_place_apart :
    (capacity old old' delta delta' max_pages max_pages' p p' n n' : ℕ) (turns turns' : List Turn)
    → 0 < delta
    → 0 < delta'
    → grow_wasm_memory_in_place capacity old delta max_pages turns ≡ grown p n
    → SeesFrom n turns'
    → grow_wasm_memory_in_place capacity old' delta' max_pages' turns' ≡ grown p' n'
    → p + delta ≤ p'
grow_wasm_memory_in_place_apart capacity old old' delta delta' max_pages max_pages' p p' n n' turns
      turns' d d' g sees g' =
    let first = grown-IsExchange capacity old delta max_pages p n turns d g in
    let length = IsExchange-length delta (page_limit capacity max_pages) p n turns first in
    let second = grown-IsExchange capacity old' delta' max_pages' p' n' turns' d' g' in
    let from = IsExchange-from delta' (page_limit capacity max_pages') p' n' n turns' sees second in
    omega (arith, length, from)

abbrev pub IsOver : Growth → Type 0
IsOver (grown p n) = Unit
IsOver refused = Unit
IsOver pending = ⊥

grow_turn-IsOver :
    (delta limit : ℕ) (r : Turn) (rest : ℕ → Growth) (old : ℕ)
    → IsOver (rest r.present) ⊎ (exchanges r old ≡ true)
    → IsOver (grow_turn delta limit r rest old)
unfolding grow_turn
grow_turn-IsOver delta limit r rest old over =
    if-cases IsOver (ltb (limit - delta) (old / k_wasm_page_size)) (λ _. tt)
      (λ _.
        if-cases IsOver (not r.permitted) (λ _. tt)
          (λ _.
            if-cases IsOver (exchanges r old) (λ _. tt)
              (λ e. elim over [ inl h ↦ h | inr h ↦ absurd (cc (e, h)) ])))

grow_loop-IsOver :
    (delta limit : ℕ) (turns : List Turn) (r s : Turn) (rest : List Turn) (old : ℕ)
    → s.present ≡ r.present
    → s.spurious ≡ false
    → IsOver (grow_loop delta limit (turns ++ (r ∷ s ∷ rest)) old)
unfolding grow_loop
grow_loop-IsOver delta limit [] r s rest old same steady =
    grow_turn-IsOver delta limit r (grow_loop delta limit (s ∷ rest)) old (
      inl (
        grow_turn-IsOver delta limit s (grow_loop delta limit rest) r.present (inr (ground arith))))
grow_loop-IsOver delta limit (t ∷ turns) r s rest old same steady =
    grow_turn-IsOver delta limit t (grow_loop delta limit (turns ++ (r ∷ s ∷ rest))) old
      (inl (grow_loop-IsOver delta limit turns r s rest t.present same steady))

-- The loop ends, whatever it meets before, when a turn finds the length that the turn before it found,
-- and its exchange does not fail without a reason.
pub grow_wasm_memory_in_place-IsOver :
    (capacity old delta max_pages : ℕ) (turns : List Turn) (r s : Turn) (rest : List Turn)
    → s.present ≡ r.present
    → s.spurious ≡ false
    → IsOver (grow_wasm_memory_in_place capacity old delta max_pages (turns ++ (r ∷ s ∷ rest)))
unfolding grow_wasm_memory_in_place
grow_wasm_memory_in_place-IsOver capacity old delta max_pages turns r s rest same steady =
    if-cases IsOver (delta == 0) (λ _. tt)
      (λ _.
        if-cases IsOver (ltb (page_limit capacity max_pages) delta) (λ _. tt)
          (λ _.
            grow_loop-IsOver delta (page_limit capacity max_pages) turns r s rest old same steady))
