-- ===== src/Futex/Listed/Add.antt =====
-- `FutexWaitList::AddNode` puts a node at the end of the waiters of its location.
use webtsan.Prelude.{
  ℕ, ◌==◌, ◌≡◌, refl, sym, ap, ◌∙◌, true, false, List, [], ◌∷◌, ◌++◌, none, some, update,
  update_other, update_same, arith, ◌≢◌, if◌then◌else◌, subst,
}
use webtsan.Futex.Maps.{find, find-put}
use webtsan.Futex.{FutexWaitList, set_next, set_prev, add_to, add_node}
use webtsan.Futex.Links.{
  Linked, Linked-append, Linked-update, Linked-set_next, Linked-location, last, last_or-last,
  has-last,
}
use webtsan.Futex.Links.Members.{has, Distinct, Distinct-append}
use webtsan.Futex.Listed.Changes.{ends, last-append, IsListed, IsListed-at}

-- A node that is not linked, and the waiters of its location.
module _ (w : FutexWaitList) (n l : ℕ) (here : (w.nodes n).wait_location ≡ l)
    (no_prev : (w.nodes n).prev ≡ none) (no_next : (w.nodes n).next ≡ none) where
  added-Linked :
      (xs : List ℕ)
      → Linked w.nodes l none xs none
      → Distinct xs
      → has n xs ≡ false
      → Linked (add_to w n l (ends xs)).nodes l none (xs ++ (n ∷ [])) none
  added-Linked [] s d out = (no_prev, no_next, here, tt)
  added-Linked (x ∷ xs) s d out =
      let t = last x xs in
      let w1 = set_next w t (some n) in
      let differ : t ≢ n =
        λ e. cc (subst (λ (a : ℕ). has a (x ∷ xs) ≡ true) e (has-last x xs), out) in
      let same = update_other w.nodes t n (record (w.nodes t) { next = some n }) differ in
      let fresh = update_same w1.nodes n (record (w1.nodes n) { prev = some t }) in
      let front = Linked-set_next w.nodes l none none (some n) x xs s d in
      Linked-append (set_prev w1 n (some t)).nodes l none none (x ∷ xs) (n ∷ [])
        (Linked-update w1.nodes l none (some n) (x ∷ xs) n (record (w1.nodes n) { prev = some t })
          front out)
        (
          ap (λ m. m.prev) fresh ∙ sym (last_or-last x xs),
          ap (λ m. m.next) fresh ∙ ap (λ m. m.next) same ∙ no_next,
          ap (λ m. m.wait_location) fresh ∙ ap (λ m. m.wait_location) same ∙ here,
          tt,
        )

  added-found :
      (xs : List ℕ) (j : ℕ)
      → find (add_to w n l (ends xs)).location_lists j
        ≡ (if l == j then ends (xs ++ (n ∷ [])) else find w.location_lists j)
  added-found [] j = find-put w.location_lists l j _
  added-found (x ∷ xs) j = rw (last-append x xs n []) (find-put w.location_lists l j _)

  added-away :
      (xs : List ℕ) (a : ℕ)
      → Linked w.nodes l none xs none
      → (w.nodes a).wait_location ≢ l
      → (add_to w n l (ends xs)).nodes a ≡ w.nodes a
  added-away [] a s away = refl
  added-away (x ∷ xs) a s away =
      let t = last x xs in
      let w1 = set_next w t (some n) in
      let there = Linked-location w.nodes l none none (x ∷ xs) t s (has-last x xs) in
      let not_n : n ≢ a = λ e. away (ap (λ (i : ℕ). (w.nodes i).wait_location) (sym e) ∙ here) in
      let not_t : t ≢ a = λ e. away (ap (λ (i : ℕ). (w.nodes i).wait_location) (sym e) ∙ there) in
      update_other w1.nodes n a _ not_n ∙ update_other w.nodes t a _ not_t

-- A node that has no links and does not wait at its location yet: AddNode puts it at the end of the waiters
-- of its location, and the waiters of all other locations stay.
pub add_node-IsListed :
    (w : FutexWaitList) (waiters : ℕ → List ℕ) (n : ℕ)
    → IsListed w.nodes w.location_lists waiters
    → (w.nodes n).prev ≡ none
    → (w.nodes n).next ≡ none
    → has n (waiters (w.nodes n).wait_location) ≡ false
    → IsListed
        (add_node w n).nodes
        (add_node w n).location_lists
        (update waiters (w.nodes n).wait_location (waiters (w.nodes n).wait_location ++ (n ∷ [])))
unfolding add_node
add_node-IsListed w waiters n is no_prev no_next out =
    let l = (w.nodes n).wait_location in
    let xs = waiters l in
    let w1 = add_to w n l (ends xs) in
    let goal =
      IsListed-at w.nodes w1.nodes w.location_lists w1.location_lists waiters l (xs ++ (n ∷ [])) is
        (added-Linked w n l refl no_prev no_next xs (is.links l) (is.distinct l) out)
        (Distinct-append xs (n ∷ []) (is.distinct l) (refl, tt) (λ a h. ground (arith, h, out)))
        (λ a away. added-away w n l refl no_prev no_next xs a (is.links l) away)
        (added-found w n l refl no_prev no_next xs) in
    subst
      (λ o.
        IsListed (add_to w n l o).nodes (add_to w n l o).location_lists
          (update waiters l (xs ++ (n ∷ []))))
      (sym (is.found l)) goal
