-- ===== src/Futex/Listed/Cases.antt =====
-- The four cases of `FutexWaitList::RemoveNode`: the only node of its location, the last one, the first one,
-- and one in the middle.
use webtsan.Prelude.{
  ℕ, ◌==◌, ◌≡◌, refl, sym, ap, ◌∙◌, true, false, List, [], ◌∷◌, ◌++◌, Option, none, some,
  update_other, update_same, arith, ◌≢◌, if◌then◌else◌, subst, Returns,
}
use mathlib.Core.List.{append-nil}
use webtsan.Futex.Maps.{find, find-put, find-remove_key}
use webtsan.Futex.{
  FutexWaitList, HeadAndTail, head_and_tail, set_next, set_prev, remove_linked, remove_tail,
  remove_head,
}
use webtsan.Futex.Links.{
  Linked, Linked-append, Linked-split, Linked-update, Linked-set_next, Linked-set_prev,
  Linked-location, last, last_or, head_or, last_or-last, has-last,
}
use webtsan.Futex.Links.Members.{has, Distinct, Apart, Apart-symm, Distinct-split}
use webtsan.Futex.Listed.Changes.{ends, last-append}

abbrev pub prev_of : List ℕ → Option ℕ
prev_of [] = none
prev_of (x ∷ xs) = some (last x xs)

pub last_or-prev_of : (xs : List ℕ) → last_or none xs ≡ prev_of xs
last_or-prev_of [] = refl
last_or-prev_of (x ∷ xs) = last_or-last x xs

-- The waiters of the location are `ys` now, and the node has no links.
pub record Removed (w : FutexWaitList) (n l : ℕ) (ys : List ℕ) (v : FutexWaitList) : Type 0 where
  pub linked : Linked v.nodes l none ys none
  pub away : (a : ℕ) → (w.nodes a).wait_location ≢ l → v.nodes a ≡ w.nodes a
  pub found :
      (j : ℕ) → find v.location_lists j ≡ (if l == j then ends ys else find w.location_lists j)
  pub no_prev : (v.nodes n).prev ≡ none
  pub no_next : (v.nodes n).next ≡ none

ne_location :
    (w : FutexWaitList) (l t a : ℕ)
    → (w.nodes t).wait_location ≡ l
    → (w.nodes a).wait_location ≢ l
    → t ≢ a
ne_location w l t a there away e = away (ap (λ (i : ℕ). (w.nodes i).wait_location) (sym e) ∙ there)

ne_member : (xs : List ℕ) (t a : ℕ) → has t xs ≡ true → has a xs ≡ false → t ≢ a
ne_member xs t a h out e = cc (subst (λ (i : ℕ). has i xs ≡ true) e h, out)

pub has-tail : (a x : ℕ) (xs : List ℕ) → has a (x ∷ xs) ≡ false → has a xs ≡ false
has-tail a x xs h = ground arith

-- A location with the node between `xs` and `zs`.
module _ (w : FutexWaitList) (n l : ℕ) (here : (w.nodes n).wait_location ≡ l) where
  Removed-only :
      (w.nodes n).prev ≡ none
      → (w.nodes n).next ≡ none
      → Returns (Removed w n l []) (remove_linked w n l none none)
  Removed-only no_prev no_next = record {
    linked = tt;
    away = λ a away. refl;
    found = λ j. find-remove_key w.location_lists l j;
    no_prev = no_prev;
    no_next = no_next;
  }

  Removed-tail :
      (x : ℕ) (xs : List ℕ) (it : HeadAndTail)
      → it.head ≡ x
      → Linked w.nodes l none (x ∷ xs) (some n)
      → Distinct (x ∷ xs)
      → has n (x ∷ xs) ≡ false
      → (w.nodes n).next ≡ none
      → Returns (Removed w n l (x ∷ xs)) (remove_tail w n l (last x xs) (some it))
  Removed-tail x xs it is_head s d out no_next =
      let p = last x xs in
      let w1 = set_next w p none in
      let not_p = ne_member (x ∷ xs) p n (has-last x xs) out in
      let there = Linked-location w.nodes l none (some n) (x ∷ xs) p s (has-last x xs) in
      let fresh = update_same w1.nodes n (record (w1.nodes n) { prev = none }) in
      record {
        linked =
            Linked-update w1.nodes l none none (x ∷ xs) n (record (w1.nodes n) { prev = none })
              (Linked-set_next w.nodes l none (some n) none x xs s d) out;
        away = λ a away.
            update_other w1.nodes n a _ (ne_location w l n a here away)
            ∙ update_other w.nodes p a _ (ne_location w l p a there away);
        found = λ j. rw is_head (find-put w.location_lists l j _);
        no_prev = ap (λ m. m.prev) fresh;
        no_next =
            ap (λ m. m.next) fresh ∙ ap (λ m. m.next) (update_other w.nodes p n _ not_p) ∙ no_next;
      }

  Removed-head :
      (y : ℕ) (ys : List ℕ) (it : HeadAndTail)
      → it.tail ≡ last y ys
      → Linked w.nodes l (some n) (y ∷ ys) none
      → Distinct (y ∷ ys)
      → has n (y ∷ ys) ≡ false
      → (w.nodes n).prev ≡ none
      → Returns (Removed w n l (y ∷ ys)) (remove_head w n l y (some it))
  Removed-head y ys it is_tail s d out no_prev =
      let w1 = set_prev w y none in
      let not_y = ne_member (y ∷ ys) y n (ground arith) out in
      let there = Linked-location w.nodes l (some n) none (y ∷ ys) y s (ground arith) in
      let fresh = update_same w1.nodes n (record (w1.nodes n) { next = none }) in
      record {
        linked =
            Linked-update w1.nodes l none none (y ∷ ys) n (record (w1.nodes n) { next = none })
              (Linked-set_prev w.nodes l (some n) none none y ys s d) out;
        away = λ a away.
            update_other w1.nodes n a _ (ne_location w l n a here away)
            ∙ update_other w.nodes y a _ (ne_location w l y a there away);
        found = λ j. rw is_tail (find-put w.location_lists l j _);
        no_prev =
            ap (λ m. m.prev) fresh ∙ ap (λ m. m.prev) (update_other w.nodes y n _ not_y) ∙ no_prev;
        no_next = ap (λ m. m.next) fresh;
      }

  Removed-middle :
      (x : ℕ) (xs : List ℕ) (y : ℕ) (ys : List ℕ)
      → Linked w.nodes l none (x ∷ xs) (some n)
      → Linked w.nodes l (some n) (y ∷ ys) none
      → Distinct (x ∷ xs)
      → Distinct (y ∷ ys)
      → Apart (x ∷ xs) (y ∷ ys)
      → has n (x ∷ xs) ≡ false
      → has n (y ∷ ys) ≡ false
      → find w.location_lists l ≡ ends ((x ∷ xs) ++ (n ∷ y ∷ ys))
      → Returns
          (Removed w n l ((x ∷ xs) ++ (y ∷ ys)))
          (remove_linked w n l (some (last x xs)) (some y))
  Removed-middle x xs y ys s t d e apart out out' entry =
      let p = last x xs in
      let w1 = set_next w p (some y) in
      let w2 = set_prev w1 y (some p) in
      let w3 = set_prev w2 n none in
      let p_in = has-last x xs in
      let y_in : has y (y ∷ ys) ≡ true = ground arith in
      let y_out : has y (x ∷ xs) ≡ false = Apart-symm (x ∷ xs) (y ∷ ys) apart y y_in in
      let front1 = Linked-set_next w.nodes l none (some n) (some y) x xs s d in
      let back1 = Linked-update w.nodes l (some n) none (y ∷ ys) p _ t (apart p p_in) in
      let front2 = Linked-update w1.nodes l none (some y) (x ∷ xs) y _ front1 y_out in
      let back2 = Linked-set_prev w1.nodes l (some n) (some p) none y ys back1 e in
      let front3 = Linked-update w2.nodes l none (some y) (x ∷ xs) n _ front2 out in
      let back3 = Linked-update w2.nodes l (some p) none (y ∷ ys) n _ back2 out' in
      let front4 = Linked-update w3.nodes l none (some y) (x ∷ xs) n _ front3 out in
      let back4 = Linked-update w3.nodes l (some p) none (y ∷ ys) n _ back3 out' in
      let p_there = Linked-location w.nodes l none (some n) (x ∷ xs) p s p_in in
      let y_there = Linked-location w.nodes l (some n) none (y ∷ ys) y t y_in in
      let fresh3 = update_same w2.nodes n (record (w2.nodes n) { prev = none }) in
      let fresh4 = update_same w3.nodes n (record (w3.nodes n) { next = none }) in
      record {
        linked =
            Linked-append (set_next w3 n none).nodes l none none (x ∷ xs) (y ∷ ys) front4
              (rw (last_or-last x xs) back4);
        away = λ a away.
            update_other w3.nodes n a _ (ne_location w l n a here away)
            ∙ update_other w2.nodes n a _ (ne_location w l n a here away)
            ∙ update_other w1.nodes y a _ (ne_location w l y a y_there away)
            ∙ update_other w.nodes p a _ (ne_location w l p a p_there away);
        found = λ j. middle_found j;
        no_prev = ap (λ m. m.prev) fresh4 ∙ ap (λ m. m.prev) fresh3;
        no_next = ap (λ m. m.next) fresh4;
      }
    where
      same_ends : ends ((x ∷ xs) ++ (n ∷ y ∷ ys)) ≡ ends ((x ∷ xs) ++ (y ∷ ys))
      same_ends = rw (last-append x xs n (y ∷ ys), last-append x xs y ys) refl

      middle_found :
          (j : ℕ)
          → find w.location_lists j
            ≡ (if l == j then ends ((x ∷ xs) ++ (y ∷ ys)) else find w.location_lists j)
      middle_found j = ground (arith, entry, same_ends)

  -- The four cases together.
  pub removed :
      (xs ys : List ℕ)
      → Linked w.nodes l none (xs ++ (n ∷ ys)) none
      → Distinct (xs ++ (n ∷ ys))
      → find w.location_lists l ≡ ends (xs ++ (n ∷ ys))
      → Returns (Removed w n l (xs ++ ys)) (remove_linked w n l (prev_of xs) (head_or ys none))
  removed [] [] s d entry = Removed-only s.0 s.1
  removed [] (y ∷ ys) s d entry =
      rw entry (Removed-head y ys (head_and_tail n (last y ys)) refl s.3 d.1 d.0 s.0)
  removed (x ∷ xs) [] s d entry =
      let parts = Linked-split w.nodes l none none (x ∷ xs) (n ∷ []) s in
      let apart = Distinct-split (x ∷ xs) (n ∷ []) d in
      let out = Apart-symm (x ∷ xs) (n ∷ []) apart.2 n (ground arith) in
      let it = head_and_tail x (last x (xs ++ (n ∷ []))) in
      subst (λ zs. Returns (Removed w n l zs) (remove_linked w n l (some (last x xs)) none))
        (sym (append-nil (x ∷ xs)))
        (rw entry (Removed-tail x xs it refl parts.0 apart.0 out parts.1.1))
  removed (x ∷ xs) (y ∷ ys) s d entry =
      let parts = Linked-split w.nodes l none none (x ∷ xs) (n ∷ y ∷ ys) s in
      let apart = Distinct-split (x ∷ xs) (n ∷ y ∷ ys) d in
      let out = Apart-symm (x ∷ xs) (n ∷ y ∷ ys) apart.2 n (ground arith) in
      Removed-middle x xs y ys parts.0 parts.1.3 apart.0 apart.1.1
        (λ a h. has-tail a n (y ∷ ys) (apart.2 a h)) out apart.1.0 entry
