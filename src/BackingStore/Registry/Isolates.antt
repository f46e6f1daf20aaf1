-- ===== src/BackingStore/Registry/Isolates.antt =====
-- The list of the isolates that share a memory, as a set.
use webtsan.Prelude.{
  ==_iff, ℕ, ◌+◌, ◌==◌, ◌≡◌, ◌≢◌, refl, sym, subst, Bool, true, false, not, ◌&&◌, ◌||◌, List, [],
  ◌∷◌, ◌++◌, none, arith, if-cases, if◌then◌else◌, ap, ◌∙◌,
}
use webtsan.Futex.Links.Members.{has, Distinct, has-append, Distinct-append}
use webtsan.BackingStore.Registry.{
  replace_first, back, pop_back, remove_isolate, Scan, present, absent, scan, put_isolate,
  add_isolate,
}

-- `ys` are the elements of `xs` but for `x`, each once.
abbrev pub IsTaken : ℕ → List ℕ → List ℕ → Type 0
IsTaken x xs ys = Distinct ys × ((y : ℕ) → has y ys ≡ (not (y == x) && has y xs))

has-back : (x : ℕ) (xs : List ℕ) → has (back x xs) (x ∷ xs) ≡ true
has-back x [] = ground arith
has-back x (z ∷ zs) = ground (arith, has-back z zs)

same_has : (a b : ℕ) (xs : List ℕ) → a ≡ b → has a xs ≡ has b xs
same_has a b xs e = ap (λ u. has u xs) e

keeps_first :
    (b y x : ℕ) (h : Bool)
    → (b ≡ x → ⊥)
    → ((y == x) || (not (y == b) && h)) ≡ (not (y == b) && ((y == x) || h))
keeps_first b y x h apart = ground arith

swaps_in :
    (y x b : ℕ) (h : Bool)
    → (y ≡ b → h ≡ true)
    → (y ≡ x → h ≡ false)
    → ((y == b) || (not (y == b) && h)) ≡ (not (y == x) && ((y == x) || h))
swaps_in y x b h last first = ground arith

has-pop_back :
    (x : ℕ) (xs : List ℕ) (y : ℕ)
    → Distinct (x ∷ xs)
    → has y (pop_back (x ∷ xs)) ≡ (not (y == back x xs) && has y (x ∷ xs))
has-pop_back x [] y d = ground arith
has-pop_back x (z ∷ zs) y (out, d) =
    let rest = has-pop_back z zs y d in
    let last = has-back z zs in
    ap (λ (b : Bool). (y == x) || b) rest
    ∙ keeps_first (back z zs) y x (has y (z ∷ zs))
        (λ e. cc (same_has (back z zs) x (z ∷ zs) e, last, out))

Distinct-pop_back : (x : ℕ) (xs : List ℕ) → Distinct (x ∷ xs) → Distinct (pop_back (x ∷ xs))
Distinct-pop_back x [] d = tt
Distinct-pop_back x (z ∷ zs) (out, d) =
    let rest = has-pop_back z zs x d in (ground (arith, rest), Distinct-pop_back z zs d)

not_there : (y x : ℕ) (h : Bool) → (y ≡ x → h ≡ false) → h ≡ (not (y == x) && h)
not_there y x h out = ground arith

pop_back-replace_first :
    (z x b w : ℕ) (ws : List ℕ)
    → pop_back (z ∷ replace_first x b (w ∷ ws)) ≡ z ∷ pop_back (replace_first x b (w ∷ ws))
pop_back-replace_first z x b w ws =
    if-cases (λ (l : List ℕ). pop_back (z ∷ l) ≡ z ∷ pop_back l) (x == w) (λ _. refl) (λ _. refl)

-- What the last one leaves, with the last one in the place of `x`.
IsTaken-later :
    (x z : ℕ) (ws ys : List ℕ)
    → (x == z) ≡ false
    → has z ws ≡ false
    → IsTaken x ws ys
    → IsTaken x (z ∷ ws) (z ∷ ys)
IsTaken-later x z ws ys apart out (d, h) =
    let z_out = h z in ((ground (arith, z_out), d), λ y. let hy = h y in ground (arith, hy))

first_case :
    (x w : ℕ) (ws : List ℕ) (y : ℕ)
    → has x (w ∷ ws) ≡ false
    → has y (pop_back (w ∷ ws)) ≡ (not (y == back w ws) && has y (w ∷ ws))
    → has y (back w ws ∷ pop_back (w ∷ ws)) ≡ (not (y == x) && has y (x ∷ w ∷ ws))
first_case x w ws y out rest =
    ap (λ (b : Bool). (y == back w ws) || b) rest
    ∙ swaps_in y x (back w ws) (has y (w ∷ ws))
        (λ e. same_has y (back w ws) (w ∷ ws) e ∙ has-back w ws)
        (λ e. same_has y x (w ∷ ws) e ∙ out)

IsTaken-first :
    (x w : ℕ) (ws : List ℕ)
    → has x (w ∷ ws) ≡ false
    → Distinct (w ∷ ws)
    → IsTaken x (x ∷ w ∷ ws) (back w ws ∷ pop_back (w ∷ ws))
IsTaken-first x w ws out d =
    let last = has-pop_back w ws (back w ws) d in
    (
      (ground (arith, last), Distinct-pop_back w ws d),
      λ y. first_case x w ws y out (has-pop_back w ws y d),
    )

IsTaken-nil : (x : ℕ) → IsTaken x (x ∷ []) []
IsTaken-nil x = (tt, λ y. ground arith)

IsTaken-replace_first :
    (x z : ℕ) (zs : List ℕ)
    → has x (z ∷ zs) ≡ true
    → Distinct (z ∷ zs)
    → IsTaken x (z ∷ zs) (pop_back (replace_first x (back z zs) (z ∷ zs)))
IsTaken-replace_first x z [] h d =
    if-cases (λ (l : List ℕ). IsTaken x (z ∷ []) (pop_back l)) (x == z)
      (λ e. subst (λ (u : ℕ). IsTaken u (z ∷ []) []) (sym ((==_iff x z).0 e)) (IsTaken-nil z))
      (λ e. absurd (ground arith))
IsTaken-replace_first x z (w ∷ ws) h (out, d) =
    if-cases (λ (l : List ℕ). IsTaken x (z ∷ w ∷ ws) (pop_back l)) (x == z)
      (λ e.
        subst (λ (u : ℕ). IsTaken u (z ∷ w ∷ ws) (back w ws ∷ pop_back (w ∷ ws)))
          (sym ((==_iff x z).0 e)) (IsTaken-first z w ws out d))
      (λ e. subst (IsTaken x (z ∷ w ∷ ws)) (sym (pop_back-replace_first z x (back w ws) w ws)) (
        IsTaken-later x z (w ∷ ws) (pop_back (replace_first x (back w ws) (w ∷ ws))) e out
          (IsTaken-replace_first x w ws (ground arith) d)))

pub remove_isolate-IsTaken :
    (x : ℕ) (xs : List ℕ) → Distinct xs → IsTaken x xs (remove_isolate x xs)
unfolding remove_isolate
remove_isolate-IsTaken x [] d = (tt, λ y. ground arith)
remove_isolate-IsTaken x (z ∷ zs) d =
    if-cases (IsTaken x (z ∷ zs)) (has x (z ∷ zs)) (λ h. IsTaken-replace_first x z zs h d)
      (λ h. (d, λ y. not_there y x (has y (z ∷ zs)) (λ e. same_has y x (z ∷ zs) e ∙ h)))

-- `ys` are the elements of `xs` and `x`, each once.
abbrev pub IsJoined : ℕ → List ℕ → List ℕ → Type 0
IsJoined x xs ys = Distinct ys × ((y : ℕ) → has y ys ≡ ((y == x) || has y xs))

not_last : (a x : ℕ) (xs : List ℕ) → has a xs ≡ true → has x xs ≡ false → has a (x ∷ []) ≡ false
not_last a x xs h out = let apart : a ≢ x = λ e. cc (same_has a x xs e, h, out) in ground arith

IsJoined-append :
    (x : ℕ) (xs : List ℕ) → Distinct xs → has x xs ≡ false → IsJoined x xs (xs ++ (x ∷ []))
IsJoined-append x xs d out = (
  Distinct-append xs (x ∷ []) d (refl, tt) (λ a h. not_last a x xs h out),
  λ y. ground (arith, has-append y xs (x ∷ [])),
)

-- Without null isolates there is no free entry.
scan-none :
    (x : ℕ) (xs : List ℕ) (i : ℕ)
    → has 0 xs ≡ false
    → scan x xs i none ≡ (if has x xs then present else absent none)
scan-none x [] i h = refl
scan-none x (z ∷ zs) i h = ground (arith, scan-none x zs (i + 1))

already : (y x : ℕ) (h : Bool) → (y ≡ x → h ≡ true) → h ≡ ((y == x) || h)
already y x h there = ground arith

pub add_isolate-IsJoined :
    (x : ℕ) (xs : List ℕ) → Distinct xs → has 0 xs ≡ false → IsJoined x xs (add_isolate x xs)
unfolding add_isolate
add_isolate-IsJoined x xs d no_null =
    subst (λ (s : Scan). IsJoined x xs (put_isolate x xs s)) (sym (scan-none x xs 0 no_null))
      (if-cases (λ (s : Scan). IsJoined x xs (put_isolate x xs s)) (has x xs)
        (λ h. (d, λ y. already y x (has y xs) (λ e. same_has y x xs e ∙ h)))
        (IsJoined-append x xs d))
