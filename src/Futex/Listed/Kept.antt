-- ===== src/Futex/Listed/Kept.antt =====
-- What `FutexWaitList::AddNode` and `FutexWaitList::RemoveNode` leave as it is.
use webtsan.Prelude.{ℕ, ◌≡◌, refl, ◌∙◌, Option, none, some, arith, Returns}
use webtsan.Futex.Maps.{Map, find}
use webtsan.Futex.{
  FutexWaitList, HeadAndTail, set_next, set_prev, add_to, add_node, remove_linked, remove_tail,
  remove_head, remove_node,
}

-- All but links and the lists of locations.
pub record Kept (w v : FutexWaitList) : Type 0 where
  pub waiting : (a : ℕ) → (v.nodes a).waiting ≡ (w.nodes a).waiting
  pub interrupted : (a : ℕ) → (v.nodes a).interrupted ≡ (w.nodes a).interrupted
  pub async_state : (a : ℕ) → (v.nodes a).async_state ≡ (w.nodes a).async_state
  pub wait_location : (a : ℕ) → (v.nodes a).wait_location ≡ (w.nodes a).wait_location
  pub promises : v.isolate_promises_to_resolve ≡ w.isolate_promises_to_resolve

Kept-refl : (w : FutexWaitList) → Kept w w
Kept-refl w = record {
  waiting = λ a. refl;
  interrupted = λ a. refl;
  async_state = λ a. refl;
  wait_location = λ a. refl;
  promises = refl;
}

Kept-trans : (u v w : FutexWaitList) → Kept u v → Kept v w → Kept u w
Kept-trans u v w s t = record {
  waiting = λ a. t.waiting a ∙ s.waiting a;
  interrupted = λ a. t.interrupted a ∙ s.interrupted a;
  async_state = λ a. t.async_state a ∙ s.async_state a;
  wait_location = λ a. t.wait_location a ∙ s.wait_location a;
  promises = t.promises ∙ s.promises;
}

pub Kept-set_next : (w : FutexWaitList) (n : ℕ) (q : Option ℕ) → Kept w (set_next w n q)
Kept-set_next w n q = record {
  waiting = λ a. ground arith;
  interrupted = λ a. ground arith;
  async_state = λ a. ground arith;
  wait_location = λ a. ground arith;
  promises = refl;
}

pub Kept-set_prev : (w : FutexWaitList) (n : ℕ) (q : Option ℕ) → Kept w (set_prev w n q)
Kept-set_prev w n q = record {
  waiting = λ a. ground arith;
  interrupted = λ a. ground arith;
  async_state = λ a. ground arith;
  wait_location = λ a. ground arith;
  promises = refl;
}

Kept-lists : (w : FutexWaitList) (m : Map HeadAndTail) → Kept w (record w { location_lists = m })
Kept-lists w m = record {
  waiting = λ a. refl;
  interrupted = λ a. refl;
  async_state = λ a. refl;
  wait_location = λ a. refl;
  promises = refl;
}

Kept-remove_linked :
    (w : FutexWaitList) (n l : ℕ) (p : Option ℕ) (q : Option ℕ) (P : FutexWaitList → Type 0)
    → Returns P (remove_linked w n l p q)
    → Returns (Kept w) (remove_linked w n l p q)
Kept-remove_linked w n l none none P r = Kept-lists w _
Kept-remove_linked w n l (some p) (some q) P r =
    let w1 = set_next w p (some q) in
    let w2 = set_prev w1 q (some p) in
    let w3 = set_prev w2 n none in
    Kept-trans w w1 (set_next w3 n none) (Kept-set_next w p (some q)) (
      Kept-trans w1 w2 (set_next w3 n none) (Kept-set_prev w1 q (some p))
        (Kept-trans w2 w3 (set_next w3 n none) (Kept-set_prev w2 n none) (Kept-set_next w3 n none)))
Kept-remove_linked w n l (some p) none P r = at_tail (find w.location_lists l) r
  where
    at_tail :
        (it : Option HeadAndTail)
        → Returns P (remove_tail w n l p it)
        → Returns (Kept w) (remove_tail w n l p it)
    at_tail none r = absurd r
    at_tail (some it) r =
        let w1 = set_next w p none in
        let w2 = set_prev w1 n none in
        Kept-trans w w1 (record w2 { location_lists = _ }) (Kept-set_next w p none)
          (Kept-trans w1 w2 (record w2 { location_lists = _ }) (Kept-set_prev w1 n none)
            (Kept-lists w2 _))
Kept-remove_linked w n l none (some q) P r = at_head (find w.location_lists l) r
  where
    at_head :
        (it : Option HeadAndTail)
        → Returns P (remove_head w n l q it)
        → Returns (Kept w) (remove_head w n l q it)
    at_head none r = absurd r
    at_head (some it) r =
        let w1 = set_prev w q none in
        let w2 = set_next w1 n none in
        Kept-trans w w1 (record w2 { location_lists = _ }) (Kept-set_prev w q none)
          (Kept-trans w1 w2 (record w2 { location_lists = _ }) (Kept-set_next w1 n none)
            (Kept-lists w2 _))

-- If it returns at all.
pub remove_node-Kept :
    (w : FutexWaitList) (n : ℕ) (P : FutexWaitList → Type 0)
    → Returns P (remove_node w n)
    → Returns (Kept w) (remove_node w n)
unfolding remove_node
remove_node-Kept w n P r =
    Kept-remove_linked w n (w.nodes n).wait_location (w.nodes n).prev (w.nodes n).next P r

Kept-add_to : (w : FutexWaitList) (n l : ℕ) (o : Option HeadAndTail) → Kept w (add_to w n l o)
Kept-add_to w n l none = Kept-lists w _
Kept-add_to w n l (some it) =
    let w1 = set_next w it.tail (some n) in
    let w2 = set_prev w1 n (some it.tail) in
    Kept-trans w w1 (record w2 { location_lists = _ }) (Kept-set_next w it.tail (some n))
      (Kept-trans w1 w2 (record w2 { location_lists = _ }) (Kept-set_prev w1 n (some it.tail))
        (Kept-lists w2 _))

pub add_node-Kept : (w : FutexWaitList) (n : ℕ) → Kept w (add_node w n)
unfolding add_node
add_node-Kept w n = Kept-add_to w n (w.nodes n).wait_location _
