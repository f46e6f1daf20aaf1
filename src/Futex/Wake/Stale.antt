-- ===== src/Futex/Wake/Stale.antt =====
-- A wake that meets a waiter whose backing store is gone.
use webtsan.Prelude.{
  ℕ, suc, ◌≡◌, ◌≢◌, refl, sym, ap, ap₂, ◌∙◌, Bool, true, false, List, [], ◌∷◌, Option, none, some,
  update_other, arith, if◌then◌else◌, subst, undefined, ok, ◌>>=◌, Returns, Returns-bind,
  Returns-both,
}
use webtsan.Futex.Maps.{find}
use webtsan.Futex.{
  AsyncState, HeadAndTail, FutexWaitList, set_waiting, set_async, set_prev, remove_node,
}
use webtsan.Futex.Async.{notify_async_waiter, enqueue}
use webtsan.Futex.Listed.Changes.{ends, IsListed, IsListed-same}
use webtsan.Futex.Listed.Kept.{Kept, Kept-set_next, Kept-set_prev, remove_node-Kept}
use webtsan.Futex.Listed.Remove.{IsTakenOut, remove_node-IsTakenOut}
use webtsan.Futex.Wake.{
  wake_turn, wake_loop, wake_entry, wake_list, clean_up_as, clean_up_node, stale, matching, passed,
  matching_case, wake_case,
}

-- The last node of the list of promises of an isolate is another one.
abbrev pub IsNotTail : ℕ → Option HeadAndTail → Type 0
IsNotTail n none = Unit
IsNotTail n (some it) = it.tail ≢ n

-- The node has no successor, and all others wait as before.
record CutOff (n : ℕ) (w v : FutexWaitList) : Type 0 where
  pub no_next : (v.nodes n).next ≡ none
  pub waiting : (a : ℕ) → n ≢ a → (v.nodes a).waiting ≡ (w.nodes a).waiting

CutOff-enqueue :
    (n isolate : ℕ) (w v : FutexWaitList) (o : Option HeadAndTail)
    → IsNotTail n o
    → CutOff n w v
    → CutOff n w (enqueue v n isolate o)
CutOff-enqueue n isolate w v none free c = record { no_next = c.no_next; waiting = c.waiting }
CutOff-enqueue n isolate w v (some it) free c = record {
  no_next = ground (arith, c.no_next, free);
  waiting = λ a h.
      (Kept-set_next (set_prev v n (some it.tail)) it.tail (some n)).waiting a
      ∙ (Kept-set_prev v n (some it.tail)).waiting a
      ∙ c.waiting a h;
}

-- Nobody is counted, and all nodes but `n` wait as they did.
abbrev pub WakesNone : ℕ → FutexWaitList → FutexWaitList × ℕ → Type 0
WakesNone n w (v, woken) =
    ◌≡◌ {A = ℕ} woken 0 × ((i : ℕ) → n ≢ i → (v.nodes i).waiting ≡ (w.nodes i).waiting)

module _ (w : FutexWaitList) (waiters : ℕ → List ℕ) (n : ℕ) (ys : List ℕ) (a : AsyncState)
    (is : IsListed w.nodes w.location_lists waiters)
    (at : waiters (w.nodes n).wait_location ≡ n ∷ ys)
    (free : IsNotTail n (find w.isolate_promises_to_resolve a.isolate_for_async_waiters)) where
  -- The state in which the node is notified.
  abbrev marked : FutexWaitList
  marked = set_waiting (set_async w n (record a { waiting_for_main_thread_cleanup = true })) n false

  abbrev cleared : AsyncState → FutexWaitList
  cleared b = set_async marked n (record b { timeout_time = none })

  elsewhere : (b : AsyncState) (i : ℕ) → n ≢ i → (cleared b).nodes i ≡ w.nodes i
  elsewhere b i differ =
      update_other marked.nodes n i _ differ
      ∙ update_other (set_async w n (record a { waiting_for_main_thread_cleanup = true })).nodes n i
          _ differ
      ∙ update_other w.nodes n i _ differ

  cleared-CutOff :
      (b : AsyncState)
      → b.isolate_for_async_waiters ≡ a.isolate_for_async_waiters
      → Returns (CutOff n w) (
          remove_node (cleared b) n >>= (λ w1. ok (
            enqueue w1 n b.isolate_for_async_waiters
              (find w1.isolate_promises_to_resolve b.isolate_for_async_waiters))))
  cleared-CutOff b same =
      let v = cleared b in
      let here : (v.nodes n).wait_location ≡ (w.nodes n).wait_location = ground arith in
      let out =
        remove_node-IsTakenOut v waiters n [] ys
          (IsListed-same w v waiters (λ i. (ground arith, ground arith, ground arith)) is)
          (ap waiters here ∙ at) in
      Returns-bind (λ u. IsTakenOut v n waiters ys u × Kept v u) (CutOff n w) (remove_node v n) _
        (Returns-both (IsTakenOut v n waiters ys) (Kept v) (remove_node v n) out
          (remove_node-Kept v n (IsTakenOut v n waiters ys) out))
        (λ u (t, k).
          CutOff-enqueue n b.isolate_for_async_waiters w u _
            (subst (IsNotTail n) (ap₂ (λ m i. find m i) (sym k.promises) (sym same)) free)
            (record {
              no_next = t.2;
              waiting = λ i differ. k.waiting i ∙ ap (λ m. m.waiting) (elsewhere b i differ);
            }))

  -- The node is the first waiter of its location, its backing store is gone, and it has no timeout.
  module _ (expired : ℕ → Bool) (gone : expired a.backing_store ≡ true)
      (waits : (w.nodes n).waiting ≡ true) (is_async : (w.nodes n).async_state ≡ some a)
      (no_timeout : a.timeout_time ≡ none) (fuel num : ℕ) where
    clean_up-CutOff : Returns (CutOff n w) (clean_up_node w n a)
    unfolding clean_up_node notify_async_waiter
    clean_up-CutOff =
        let b = record a { waiting_for_main_thread_cleanup = true } in
        let known : (marked.nodes n).async_state ≡ some b = ground arith in
        subst (λ t. Returns (CutOff n w) (clean_up_as t w n a)) (sym no_timeout)
          (subst
            (λ o. Returns (CutOff n w) (elim o [
              | none ↦ undefined
              | some c ↦ remove_node (cleared c) n >>= (λ w1. ok (
                  enqueue w1 n c.isolate_for_async_waiters
                    (find w1.isolate_promises_to_resolve c.isolate_for_async_waiters)))
            ]))
            (sym known) (cleared-CutOff b refl))

    stale_turn : Returns (WakesNone n w) (wake_loop expired (suc fuel) w (some n) (suc num) 0)
    unfolding wake_loop wake_turn
    stale_turn =
        let is_case : wake_case expired (w.nodes n) ≡ stale a =
          ap₂ (λ t o. if t then matching_case expired o else passed) waits is_async
          ∙ ap (λ t. if t then stale a else matching) gone in
        subst (λ c. Returns (WakesNone n w) (wake_turn c w n (suc num) 0 (wake_loop expired fuel)))
          (sym is_case)
          (Returns-bind (CutOff n w) (WakesNone n w) (clean_up_node w n a) _ clean_up-CutOff (λ v c.
            subst (λ q. Returns (WakesNone n w) (wake_loop expired fuel v q (suc num) 0))
              (sym c.no_next) (refl, c.waiting)))

    -- Where the list stands for the waiters of each location, the first waiter of a location waits asynchronously
    -- with no timeout, its backing store is gone, and it is not the last of the promises of its isolate: a wake at
    -- the location returns, counts nobody, and every other waiter goes on waiting, whatever the number to wake.
    pub wake_list-WakesNone :
        Returns (WakesNone n w) (wake_list expired (suc fuel) w (w.nodes n).wait_location (suc num))
    unfolding wake_list
    wake_list-WakesNone =
        let entry = is.found (w.nodes n).wait_location ∙ ap ends at in
        subst (λ e. Returns (WakesNone n w) (wake_entry expired (suc fuel) w (suc num) e))
          (sym entry) stale_turn
