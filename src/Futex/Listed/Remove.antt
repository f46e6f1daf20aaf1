-- ===== src/Futex/Listed/Remove.antt =====
-- `FutexWaitList::RemoveNode` takes a node out of the waiters of its location, wherever it stands.
use webtsan.Prelude.{
  ℕ, ◌≡◌, refl, sym, ap, ap₂, ◌∙◌, List, ◌∷◌, ◌++◌, none, update, subst, Returns, Returns-map,
}
use webtsan.Futex.{FutexWaitList, remove_linked, remove_node}
use webtsan.Futex.Links.{Linked, Linked-split, head_or}
use webtsan.Futex.Links.Members.{Distinct, Distinct-append, Distinct-split}
use webtsan.Futex.Listed.Changes.{ends, IsListed, IsListed-at}
use webtsan.Futex.Listed.Cases.{prev_of, last_or-prev_of, Removed, has-tail, removed}

-- What RemoveNode makes of a node `n` whose location has the waiters `xs`, `n` and `ys`: the waiters of the
-- location are `xs` and `ys`, those of other locations stay, and `n` has no links.
abbrev pub IsTakenOut : FutexWaitList → ℕ → (ℕ → List ℕ) → List ℕ → FutexWaitList → Type 0
IsTakenOut w n waiters ys v =
    IsListed v.nodes v.location_lists (update waiters (w.nodes n).wait_location ys)
    × ((v.nodes n).prev ≡ none)
    × ((v.nodes n).next ≡ none)

-- Where the list stands for the waiters of each location, and those of the location of the node are `xs`, the
-- node and `ys`, RemoveNode finds the entry and returns a list that stands for `xs` and `ys` at that location and
-- for the same waiters at all others, and the node has no links.
pub remove_node-IsTakenOut :
    (w : FutexWaitList) (waiters : ℕ → List ℕ) (n : ℕ) (xs ys : List ℕ)
    → IsListed w.nodes w.location_lists waiters
    → waiters (w.nodes n).wait_location ≡ xs ++ (n ∷ ys)
    → Returns (IsTakenOut w n waiters (xs ++ ys)) (remove_node w n)
unfolding remove_node
remove_node-IsTakenOut w waiters n xs ys is at =
    let l = (w.nodes n).wait_location in
    let s = subst (λ zs. Linked w.nodes l none zs none) at (is.links l) in
    let d = subst Distinct at (is.distinct l) in
    let parts = Linked-split w.nodes l none none xs (n ∷ ys) s in
    let apart = Distinct-split xs (n ∷ ys) d in
    let entry = is.found l ∙ ap ends at in
    let links = ap₂ (remove_linked w n l) (sym (parts.1.0 ∙ last_or-prev_of xs)) (sym parts.1.1) in
    subst (Returns (IsTakenOut w n waiters (xs ++ ys))) links (
      Returns-map (Removed w n l (xs ++ ys)) (IsTakenOut w n waiters (xs ++ ys))
        (remove_linked w n l (prev_of xs) (head_or ys none))
        (λ v r. (
          IsListed-at w.nodes v.nodes w.location_lists v.location_lists waiters l (xs ++ ys) is
              r.linked
              (Distinct-append xs ys apart.0 apart.1.1 (λ a h. has-tail a n ys (apart.2 a h)))
              r.away r.found,
          r.no_prev,
          r.no_next,
        ))
        (removed w n l refl xs ys s d entry))
