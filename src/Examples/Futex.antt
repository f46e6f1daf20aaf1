-- ===== src/Examples/Futex.antt =====
-- Instances of the theorems on the wait list: two threads that wait at address 64, in this order.
use webtsan.Prelude.{
  ℕ, ◌==◌, ◌≡◌, refl, true, false, List, [], ◌∷◌, Option, none, some, update, arith, ok, Returns,
  if-cases,
}
use webtsan.Futex.{
  AsyncState, FutexWaitListNode, FutexWaitList, head_and_tail, add_node, remove_node,
}
use webtsan.Futex.Maps.{find}
use webtsan.Futex.Listed.Changes.{IsListed, IsListed-at}
use webtsan.Futex.Links.Members.{has}
use webtsan.Futex.Listed.Add.{add_node-IsListed}
use webtsan.Futex.Listed.Remove.{IsTakenOut, remove_node-IsTakenOut}
use webtsan.Futex.Wait.{Round, wait_loop, wait_sync_impl, smi, k_ok}
use webtsan.Futex.Wait.Leaves.{EndsOff, wait_sync_impl-EndsOff}
use webtsan.Futex.Wake.{wake_list}
use webtsan.Futex.Wake.Chosen.{woken_waiters}
use webtsan.Futex.Wake.Woken.{wake_list-Wakes}
use webtsan.Futex.Wake.Waiter.{wake_list-wait_loop}
use webtsan.Futex.Wake.Stale.{IsNotTail, WakesNone, wake_list-WakesNone}

abbrev waiter : FutexWaitListNode
waiter = record {
  prev = none;
  next = none;
  wait_location = 64;
  waiting = true;
  interrupted = false;
  async_state = none;
}

abbrev empty : FutexWaitList
empty = record {
  nodes = λ _. waiter;
  location_lists = [];
  isolate_promises_to_resolve = [];
  waitasync_promises = λ _. [];
  events = [];
}

abbrev nobody : ℕ → List ℕ
nobody l = []

empty-IsListed : IsListed empty.nodes empty.location_lists nobody
unfolding find
empty-IsListed = record { links = λ l. tt; distinct = λ l. tt; found = λ l. refl }

add_node-IsListed_example :
    IsListed (add_node empty 1).nodes (add_node empty 1).location_lists (update nobody 64 (1 ∷ []))
add_node-IsListed_example = add_node-IsListed empty nobody 1 empty-IsListed refl refl refl

-- Node 1 and node 2 wait, the first with the asynchronous state that is given.
abbrev pair : Option AsyncState → FutexWaitList
pair o = record {
  nodes =
      update (update (λ _. waiter) 1 (record waiter { next = some 2; async_state = o })) 2
        (record waiter { prev = some 1 });
  location_lists = (64, head_and_tail 1 2) ∷ [];
  isolate_promises_to_resolve = [];
  waitasync_promises = λ _. [];
  events = [];
}

abbrev both : ℕ → List ℕ
both = update nobody 64 (1 ∷ 2 ∷ [])

pair-IsListed : (o : Option AsyncState) → IsListed (pair o).nodes (pair o).location_lists both
unfolding find
pair-IsListed o =
    IsListed-at empty.nodes (pair o).nodes [] (pair o).location_lists nobody 64 (1 ∷ 2 ∷ [])
      empty-IsListed (refl, refl, refl, (refl, refl, refl, tt)) (refl, (refl, tt))
      (λ a away. absurd (away refl)) (λ j. refl)

remove_node-IsTakenOut_example :
    Returns (IsTakenOut (pair none) 1 both (2 ∷ [])) (remove_node (pair none) 1)
remove_node-IsTakenOut_example =
    remove_node-IsTakenOut (pair none) both 1 [] (2 ∷ []) (pair-IsListed none) refl

wake_list-Wakes_example :
    wake_list (λ _. false) 2 (pair none) 64 1 ≡ ok (woken_waiters (pair none) (1 ∷ []), 1)
wake_list-Wakes_example =
    wake_list-Wakes (λ _. false) 64 2 (pair none) both 1 (pair-IsListed none) (refl, (refl, tt))
      (omega arith) (omega arith)

-- The time is over when the loop goes on.
abbrev late : Round
late = record { handled = λ w. w; exception = none; now = 99; slept = λ w. w }

wake_list-wait_loop_example :
    Returns
      (λ (v, woken). wait_loop 1 (some 50) (late ∷ []) v ≡ some (smi k_ok, v))
      (wake_list (λ _. false) 2 (pair none) 64 1)
wake_list-wait_loop_example =
    wake_list-wait_loop (λ _. false) 64 2 1 (pair none) both (pair-IsListed none) (refl, (refl, tt))
      (omega arith) (omega arith) 1 (some 50) late [] refl refl

-- The test that the example means: the value is as expected, and the wait times out.
wait_sync_impl-EndsOff_example :
    Returns
      (EndsOff 3)
      (wait_sync_impl add_node remove_node 3 (some 50) (some 64) 7 7 (late ∷ []) (pair none))
wait_sync_impl-EndsOff_example =
    wait_sync_impl-EndsOff 3 64 (some 50) 7 7 (late ∷ []) (pair none)
      (record {
        waiters = both;
        listed = pair-IsListed none;
        out = λ l. if-cases (λ xs. has 3 xs ≡ false) (64 == l) (λ _. refl) (λ _. refl);
        no_prev = refl;
        no_next = refl;
      })
      (λ w is. is, λ w is. is, tt)

abbrev expired_waiter : AsyncState
expired_waiter = record {
  isolate_for_async_waiters = 5;
  backing_store = 8;
  timeout_time = none;
  timeout_task_id = none;
  waiting_for_main_thread_cleanup = false;
  promise = some 6;
  native_context = some 7;
}

not_tail : IsNotTail 1 (find (pair (some expired_waiter)).isolate_promises_to_resolve 5)
unfolding find
not_tail = tt

wake_list-WakesNone_example :
    Returns
      (WakesNone 1 (pair (some expired_waiter)))
      (wake_list (λ s. s == 8) 4 (pair (some expired_waiter)) 64 5)
wake_list-WakesNone_example =
    wake_list-WakesNone (pair (some expired_waiter)) both 1 (2 ∷ []) expired_waiter
      (pair-IsListed (some expired_waiter)) refl not_tail (λ s. s == 8) refl refl refl refl 3 4
