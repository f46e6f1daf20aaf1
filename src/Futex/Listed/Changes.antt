-- ===== src/Futex/Listed/Changes.antt =====
-- The wait list as a list of nodes for each location, and a change at one location.
use webtsan.Prelude.{
  ℕ, ◌==◌, ◌≡◌, refl, sym, ap, ◌∙◌, List, [], ◌∷◌, ◌++◌, Option, none, some, update, arith, ◌≢◌,
  if◌then◌else◌, subst, if-cases, ==_iff,
}
use webtsan.Futex.Maps.{Map, find}
use webtsan.Futex.{FutexWaitList, HeadAndTail, head_and_tail}
use webtsan.Futex.Links.{Nodes, Linked, Linked-frame, Linked-location, SameLinks, last}
use webtsan.Futex.Links.Members.{Distinct}

-- The entry of a location.
abbrev pub ends : List ℕ → Option HeadAndTail
ends [] = none
ends (x ∷ xs) = some (head_and_tail x (last x xs))

pub last-append : (x : ℕ) (xs : List ℕ) (y : ℕ) (ys : List ℕ) → last x (xs ++ y ∷ ys) ≡ last y ys
last-append x [] y ys = refl
last-append x (z ∷ zs) y ys = last-append z zs y ys

pub record IsListed (nodes : Nodes) (lists : Map HeadAndTail) (waiters : ℕ → List ℕ) : Type 0 where
  pub links : (l : ℕ) → Linked nodes l none (waiters l) none
  pub distinct : (l : ℕ) → Distinct (waiters l)
  pub found : (l : ℕ) → find lists l ≡ ends (waiters l)

-- A change at one location, which leaves the nodes of all others alone.
module _ (nodes nodes' : Nodes) (lists lists' : Map HeadAndTail) (waiters : ℕ → List ℕ) (l : ℕ)
    (ys : List ℕ) (is : IsListed nodes lists waiters) (linked : Linked nodes' l none ys none)
    (distinct : Distinct ys) (away : (a : ℕ) → (nodes a).wait_location ≢ l → nodes' a ≡ nodes a)
    (found : (j : ℕ) → find lists' j ≡ (if l == j then ends ys else find lists j)) where
  elsewhere : (j : ℕ) → l ≢ j → Linked nodes' j none (waiters j) none
  elsewhere j differ = Linked-frame nodes j nodes' none none (waiters j) (is.links j) (λ a h.
      let there = Linked-location nodes j none none (waiters j) a (is.links j) h in
      let same = away a (λ e. differ (sym e ∙ there)) in
      (ap (λ m. m.prev) same, ap (λ m. m.next) same, ap (λ m. m.wait_location) same))

  pub IsListed-at : IsListed nodes' lists' (update waiters l ys)
  IsListed-at = record {
    links = λ j.
        if-cases (λ xs. Linked nodes' j none xs none) (l == j)
          (λ e. subst (λ (i : ℕ). Linked nodes' i none ys none) ((==_iff l j).0 e) linked)
          (λ e. elsewhere j (λ h. cc (e, (==_iff l j).1 h)));
    distinct = λ j. if-cases Distinct (l == j) (λ _. distinct) (λ _. is.distinct j);
    found = λ j. ground (arith, found j, is.found j);
  }

pub IsListed-same :
    (w v : FutexWaitList) (waiters : ℕ → List ℕ)
    → ((a : ℕ) → SameLinks (v.nodes a) (w.nodes a))
    → IsListed w.nodes w.location_lists waiters
    → IsListed v.nodes w.location_lists waiters
IsListed-same w v waiters same is = record {
  links = λ l. Linked-frame w.nodes l v.nodes none none (waiters l) (is.links l) (λ a _. same a);
  distinct = is.distinct;
  found = is.found;
}
