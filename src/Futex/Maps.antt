-- ===== src/Futex/Maps.antt =====
-- The maps of the wait list, `base::SmallMap`: an association list, new keys at its end.
use webtsan.Prelude.{ℕ, ◌==◌, ◌≡◌, refl, List, [], ◌∷◌, Option, none, some, if◌then◌else◌, arith}

abbrev pub Map {ℓ} : Type ℓ → Type ℓ
Map A = List (ℕ × A)

module _ {ℓ} {A : Type ℓ} where
  unfoldable pub find : Map A → ℕ → Option A
  find [] k = none
  find ((j, a) ∷ m) k = if j == k then some a else find m k

  -- `m[k] = a`.
  unfoldable pub put : Map A → ℕ → A → Map A
  put [] k a = (k, a) ∷ []
  put ((j, b) ∷ m) k a = if j == k then (k, a) ∷ m else (j, b) ∷ put m k a

  unfoldable pub remove_key : Map A → ℕ → Map A
  remove_key [] k = []
  remove_key ((j, b) ∷ m) k = if j == k then remove_key m k else (j, b) ∷ remove_key m k

  pub find-put :
      (m : Map A) (k j : ℕ) (a : A) → find (put m k a) j ≡ (if k == j then some a else find m j)
  unfolding find put
  find-put [] k j a = refl
  find-put ((i, b) ∷ m) k j a = ground (arith, find-put m k j a)

  pub find-remove_key :
      (m : Map A) (k j : ℕ) → find (remove_key m k) j ≡ (if k == j then none else find m j)
  unfolding find remove_key
  find-remove_key [] k j = ground arith
  find-remove_key ((i, b) ∷ m) k j = ground (arith, find-remove_key m k j)
