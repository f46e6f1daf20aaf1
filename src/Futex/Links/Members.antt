-- ===== src/Futex/Links/Members.antt =====
-- Membership in a list of nodes, as a test.
use webtsan.Prelude.{
  ℕ, ◌==◌, ◌≡◌, refl, Bool, true, false, ◌||◌, List, [], ◌∷◌, ◌++◌, arith, Bool-cases, inl, inr,
}

abbrev pub has : ℕ → List ℕ → Bool
has a [] = false
has a (x ∷ xs) = (a == x) || has a xs

abbrev pub Distinct : List ℕ → Type 0
Distinct [] = Unit
Distinct (x ∷ xs) = (has x xs ≡ false) × Distinct xs

abbrev pub Apart : List ℕ → List ℕ → Type 0
Apart xs ys = (a : ℕ) → has a xs ≡ true → has a ys ≡ false

pub Apart-symm : (xs ys : List ℕ) → Apart xs ys → Apart ys xs
Apart-symm xs ys apart a h = elim (Bool-cases (has a xs)) [ inl e ↦ cc (apart a e, h) | inr e ↦ e ]

pub has-append : (a : ℕ) (xs ys : List ℕ) → has a (xs ++ ys) ≡ (has a xs || has a ys)
has-append a [] ys = refl
has-append a (x ∷ xs) ys = ground (arith, has-append a xs ys)

pub Distinct-append :
    (xs ys : List ℕ) → Distinct xs → Distinct ys → Apart xs ys → Distinct (xs ++ ys)
Distinct-append [] ys d e apart = e
Distinct-append (x ∷ xs) ys (out, d) e apart = (
  ground (arith, has-append x xs ys, apart x),
  Distinct-append xs ys d e (λ a h. apart a (ground arith)),
)

pub Distinct-split :
    (xs ys : List ℕ) → Distinct (xs ++ ys) → Distinct xs × Distinct ys × Apart xs ys
Distinct-split [] ys d = (tt, d, λ a h. cc)
Distinct-split (x ∷ xs) ys (out, d) =
    let rest = Distinct-split xs ys d in
    (
      (ground (arith, has-append x xs ys), rest.0),
      rest.1,
      λ a h. ground (arith, has-append x xs ys, rest.2 a),
    )

pub not-has-middle : (n : ℕ) (xs ys : List ℕ) → Distinct (xs ++ (n ∷ ys)) → has n (xs ++ ys) ≡ false
not-has-middle n xs ys d =
    let parts = Distinct-split xs (n ∷ ys) d in
    let front = Apart-symm xs (n ∷ ys) parts.2 n (ground arith) in
    ground (arith, has-append n xs ys, front, parts.1.0)
