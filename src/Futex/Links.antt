-- ===== src/Futex/Links.antt =====
-- Doubly linked segments of nodes, as lists of their numbers.
pub mod Members
use webtsan.Prelude.{
  ℕ, ◌==◌, ◌≡◌, refl, Bool, true, false, ◌||◌, List, [], ◌∷◌, ◌++◌, Option, none, some, update,
  arith, ◌≢◌, ◌∙◌, ap, subst, update_other, if◌then◌else◌,
}
use webtsan.Futex.{FutexWaitListNode}
use webtsan.Futex.Links.Members.{has, Distinct, Apart}

abbrev pub head_or : List ℕ → Option ℕ → Option ℕ
head_or [] q = q
head_or (x ∷ xs) q = some x

abbrev pub last_or : Option ℕ → List ℕ → Option ℕ
last_or p [] = p
last_or p (x ∷ xs) = last_or (some x) xs

abbrev pub last : ℕ → List ℕ → ℕ
last x [] = x
last x (y ∷ ys) = last y ys

abbrev pub Nodes : Type 0
Nodes = ℕ → FutexWaitListNode

-- From the predecessor `p` the links lead through the nodes `xs`, which wait at `l`, to `q`.
abbrev pub Linked : Nodes → ℕ → Option ℕ → List ℕ → Option ℕ → Type 0
Linked nodes l p [] q = Unit
Linked nodes l p (x ∷ xs) q =
    ((nodes x).prev ≡ p)
    × ((nodes x).next ≡ head_or xs q)
    × ((nodes x).wait_location ≡ l)
    × Linked nodes l (some x) xs q

abbrev pub SameLinks : FutexWaitListNode → FutexWaitListNode → Type 0
SameLinks a b = (a.prev ≡ b.prev) × (a.next ≡ b.next) × (a.wait_location ≡ b.wait_location)

pub last_or-last : (x : ℕ) (xs : List ℕ) → last_or (some x) xs ≡ some (last x xs)
last_or-last x [] = refl
last_or-last x (y ∷ ys) = last_or-last y ys

pub has-last : (x : ℕ) (xs : List ℕ) → has (last x xs) (x ∷ xs) ≡ true
has-last x [] = ground arith
has-last x (y ∷ ys) = ground (arith, has-last y ys)

pub last-ne : (x y : ℕ) (ys : List ℕ) → has x (y ∷ ys) ≡ false → last y ys ≢ x
last-ne x y ys out e = cc (subst (λ t. has t (y ∷ ys) ≡ true) e (has-last y ys), out)

module _ (nodes : Nodes) (l : ℕ) where
  pub Linked-location :
      (p : Option ℕ) (q : Option ℕ) (xs : List ℕ) (a : ℕ)
      → Linked nodes l p xs q
      → has a xs ≡ true
      → (nodes a).wait_location ≡ l
  Linked-location p q [] a s h = cc
  Linked-location p q (x ∷ xs) a (e, f, g, s) h = ground (arith, Linked-location (some x) q xs a s)

  -- A segment survives any change that keeps the links of its nodes.
  pub Linked-frame :
      (nodes' : Nodes) (p : Option ℕ) (q : Option ℕ) (xs : List ℕ)
      → Linked nodes l p xs q
      → ((a : ℕ) → has a xs ≡ true → SameLinks (nodes' a) (nodes a))
      → Linked nodes' l p xs q
  Linked-frame nodes' p q [] s same = tt
  Linked-frame nodes' p q (x ∷ xs) (e, f, g, s) same =
      let here = same x (ground arith) in
      (
        ground (arith, here),
        ground (arith, here),
        ground (arith, here),
        Linked-frame nodes' (some x) q xs s (λ a h. same a (ground arith)),
      )

  pub Linked-update :
      (p : Option ℕ) (q : Option ℕ) (xs : List ℕ) (t : ℕ) (node : FutexWaitListNode)
      → Linked nodes l p xs q
      → has t xs ≡ false
      → Linked (update nodes t node) l p xs q
  Linked-update p q xs t node s out = Linked-frame (update nodes t node) p q xs s (λ a h.
      let same : update nodes t node a ≡ nodes a = ground arith in
      (ground (arith, same), ground (arith, same), ground (arith, same)))

  pub Linked-split :
      (p : Option ℕ) (q : Option ℕ) (xs ys : List ℕ)
      → Linked nodes l p (xs ++ ys) q
      → Linked nodes l p xs (head_or ys q) × Linked nodes l (last_or p xs) ys q
  Linked-split p q [] ys s = (tt, s)
  Linked-split p q (x ∷ []) ys (e, f, g, s) = ((e, f, g, tt), s)
  Linked-split p q (x ∷ y ∷ xs) ys (e, f, g, s) =
      let rest = Linked-split (some x) q (y ∷ xs) ys s in ((e, f, g, rest.0), rest.1)

  pub Linked-append :
      (p : Option ℕ) (q : Option ℕ) (xs ys : List ℕ)
      → Linked nodes l p xs (head_or ys q)
      → Linked nodes l (last_or p xs) ys q
      → Linked nodes l p (xs ++ ys) q
  Linked-append p q [] ys s t = t
  Linked-append p q (x ∷ []) ys (e, f, g, s) t = (e, f, g, t)
  Linked-append p q (x ∷ y ∷ xs) ys (e, f, g, s) t =
      (e, f, g, Linked-append (some x) q (y ∷ xs) ys s t)

  pub Linked-set_prev :
      (p : Option ℕ) (p' : Option ℕ) (q : Option ℕ) (x : ℕ) (xs : List ℕ)
      → Linked nodes l p (x ∷ xs) q
      → Distinct (x ∷ xs)
      → Linked (update nodes x (record (nodes x) { prev = p' })) l p' (x ∷ xs) q
  Linked-set_prev p p' q x xs (e, f, g, s) (out, d) = (
    ground arith,
    ground arith,
    ground arith,
    Linked-update (some x) q xs x (record (nodes x) { prev = p' }) s out,
  )

  pub Linked-set_next :
      (p : Option ℕ) (q : Option ℕ) (q' : Option ℕ) (x : ℕ) (xs : List ℕ)
      → Linked nodes l p (x ∷ xs) q
      → Distinct (x ∷ xs)
      → Linked (update nodes (last x xs) (record (nodes (last x xs)) { next = q' })) l p (x ∷ xs) q'
  Linked-set_next p q q' x [] (e, f, g, s) d = (ground arith, ground arith, ground arith, tt)
  Linked-set_next p q q' x (y ∷ ys) (e, f, g, s) (out, d) =
      let t = last y ys in
      let differ : t ≢ x = last-ne x y ys out in
      let same = update_other nodes t x (record (nodes t) { next = q' }) differ in
      (
        ap (λ m. m.prev) same ∙ e,
        ap (λ m. m.next) same ∙ f,
        ap (λ m. m.wait_location) same ∙ g,
        Linked-set_next (some x) q q' y ys s d,
      )
