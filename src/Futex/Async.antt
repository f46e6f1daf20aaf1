-- ===== src/Futex/Async.antt =====
-- The asynchronous waiters of patches/v8/modified-files/src/execution/futex-emulation.cc: how one is
-- notified, resolved, cleaned up and deleted.
use webtsan.Prelude.{
  ℕ, zero, suc, ◌==◌, Bool, true, false, not, List, [], ◌∷◌, Option, none, some, update, uint32_max,
  Outcome, ok, undefined, ◌>>=◌, if◌then◌else◌,
}
use webtsan.Caller.{Caller}
use webtsan.Callbacks.{WebTSanCallbacks, Callback2}
use webtsan.Futex.Maps.{find, put, remove_key}
use webtsan.Futex.{
  AsyncState, HeadAndTail, head_and_tail, FutexWaitList, posted_resolve, resolved_ok,
  resolved_timed_out, deleted, set_prev, set_next, set_async, with_event, with_async, remove_node,
}

-- What the manager of cancelable tasks answers.
pub data TryAbortResult : Type 0 where
  task_removed : TryAbortResult
  task_running : TryAbortResult
  task_aborted : TryAbortResult

abbrev pub is_running : TryAbortResult → Bool
is_running task_running = true
is_running r = false

-- The manager of an isolate and the id of a task.
abbrev pub TryAbort : Type 0
TryAbort = ℕ → ℕ → TryAbortResult

unfoldable pub cancel_timeout_task : TryAbort → FutexWaitList → ℕ → Outcome (FutexWaitList × Bool)
cancel_timeout_task try_abort w n = with_async w n λ a. elim (a.timeout_task_id) [
  | none ↦ ok (w, true)
  | some id ↦ ok (
    set_async w n (record a { timeout_task_id = none }),
    not (is_running (try_abort a.isolate_for_async_waiters id)),
  )
]

-- The node joins the list of its isolate, or founds one, for which a task is posted.
abbrev pub enqueue : FutexWaitList → ℕ → ℕ → Option HeadAndTail → FutexWaitList
enqueue w n isolate none =
    with_event
      (record w {
        isolate_promises_to_resolve = put w.isolate_promises_to_resolve isolate (head_and_tail n n);
      })
      (posted_resolve isolate)
enqueue w n isolate (some it) =
    let linked = set_next (set_prev w n (some it.tail)) it.tail (some n) in
    record linked {
      isolate_promises_to_resolve =
          put linked.isolate_promises_to_resolve isolate (head_and_tail it.head n);
    }

unfoldable pub notify_async_waiter : FutexWaitList → ℕ → Outcome FutexWaitList
notify_async_waiter w n = with_async w n λ a.
    remove_node (set_async w n (record a { timeout_time = none })) n >>= (λ w1. ok (
      enqueue w1 n a.isolate_for_async_waiters
        (find w1.isolate_promises_to_resolve a.isolate_for_async_waiters)))

abbrev pub relink_prev : FutexWaitList → Option ℕ → Option ℕ → FutexWaitList
relink_prev w none next = w
relink_prev w (some p) next = set_next w p next

abbrev pub relink_next : FutexWaitList → Option ℕ → Option ℕ → FutexWaitList
relink_next w none prev = w
relink_next w (some q) prev = set_prev w q prev

-- The list without the node, and its successor. The list of its neighbours has no head or tail here.
unfoldable pub delete_async_waiter_node : FutexWaitList → ℕ → FutexWaitList × Option ℕ
delete_async_waiter_node w n =
    let next = (w.nodes n).next in
    let w1 = relink_prev w (w.nodes n).prev next in
    (with_event (relink_next w1 next (w1.nodes n).prev) (deleted n), next)

abbrev pub without : ℕ → List ℕ → List ℕ
without p [] = []
without p (x ∷ xs) = if p == x then without p xs else x ∷ without p xs

-- The promise leaves the set of its native context, unless it is gone.
unfoldable pub cleanup_async_waiter_promise : FutexWaitList → ℕ → Outcome FutexWaitList
cleanup_async_waiter_promise w n = with_async w n λ a. elim (a.promise) [
  | none ↦ ok w
  | some p ↦ elim (a.native_context) [
    | none ↦ undefined
    | some c ↦ ok (record w {
      waitasync_promises = update w.waitasync_promises c (without p (w.waitasync_promises c));
    })
  ]
]

-- The promise is resolved with "timed-out" while the time of the timeout is there, and with "ok" after a
-- wake, which clears it.
abbrev pub resolve_promise : FutexWaitList → AsyncState → FutexWaitList
resolve_promise w a = elim (a.promise) [
  | none ↦ w
  | some p ↦ elim (a.timeout_time) [
    | none ↦ with_event w (resolved_ok p)
    | some _ ↦ with_event w (resolved_timed_out p)
  ]
]

unfoldable pub resolve_async_waiter_promise : TryAbort → FutexWaitList → ℕ → Outcome FutexWaitList
unfolding cancel_timeout_task
resolve_async_waiter_promise try_abort w n = cancel_timeout_task try_abort w n >>= λ (w1, success).
    with_async w1 n
      (λ a. if a.waiting_for_main_thread_cleanup then ok w1 else ok (resolve_promise w1 a))

-- The flag `--wasm-tsan` and the table of callbacks.
module _ (wasm_tsan : Bool) (cbs : WebTSanCallbacks) where
  abbrev pub futex_tid : Caller → ℕ
  futex_tid x = elim (cbs.get_current_tid_cb) [ none ↦ uint32_max | some f ↦ f x ]

  -- A hook that is called without a test that it is there.
  unfoldable pub call_hook : Option Callback2 → Caller → ℕ → Outcome Caller
  call_hook hook x location =
      if not wasm_tsan
      then ok x
      else if futex_tid x == uint32_max
      then ok x
      else elim hook [ none ↦ undefined | some f ↦ f x (futex_tid x) location ]

  -- A location of null has no hook.
  abbrev pub hook_node : Caller → ℕ → Outcome Caller
  hook_node x location =
      if location == 0 then ok x else call_hook cbs.on_atomics_wait_complete_cb x location

  -- The loop over the nodes of an isolate, which are on no list any more.
  unfoldable pub resolve_loop :
      ℕ → TryAbort → Caller → FutexWaitList → Option ℕ → Outcome (Caller × FutexWaitList)
  resolve_loop fuel try_abort x w none = ok (x, w)
  resolve_loop zero try_abort x w (some n) = undefined
  resolve_loop (suc fuel) try_abort x w (some n) = hook_node x (w.nodes n).wait_location >>= λ y.
      resolve_async_waiter_promise try_abort w n >>= λ w1.
      cleanup_async_waiter_promise w1 n >>= λ w2.
      resolve_loop fuel try_abort y (delete_async_waiter_node w2 n).0
        (delete_async_waiter_node w2 n).1

  unfoldable pub resolve_async_waiter_promises :
      ℕ → TryAbort → Caller → FutexWaitList → ℕ → Outcome (Caller × FutexWaitList)
  resolve_async_waiter_promises fuel try_abort x w isolate =
      elim (find w.isolate_promises_to_resolve isolate) [
        | none ↦ undefined
        | some it ↦
            resolve_loop fuel try_abort x
              (record w {
                isolate_promises_to_resolve = remove_key w.isolate_promises_to_resolve isolate;
              })
              (some it.head)
      ]

-- The task of a timeout. It ignores a node that has been woken, whose promise the other task resolves.
unfoldable pub handle_async_waiter_timeout : TryAbort → FutexWaitList → ℕ → Outcome FutexWaitList
handle_async_waiter_timeout try_abort w n = with_async w n λ a.
    let w1 = set_async w n (record a { timeout_task_id = none }) in
    if not (w1.nodes n).waiting
    then ok w1
    else remove_node w1 n >>= λ w2. resolve_async_waiter_promise try_abort w2 n >>= λ w3.
        cleanup_async_waiter_promise w3 n >>= λ w4. ok (with_event w4 (deleted n))
