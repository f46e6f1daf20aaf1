-- ===== src/Futex.antt =====
-- The wait list of patches/v8/modified-files/src/execution/futex-emulation.cc: the nodes of the
-- contexts that wait, doubly linked in one list for each location, and the list of each isolate whose
-- promises are to be resolved. A pointer to a node is the number of the node, none while it is null.
-- The checks of a debug build are not modelled, but for `Verify`.
pub mod Maps
pub mod Async
pub mod Deinit
pub mod Wake
pub mod Wait
pub mod WaitAsync
pub mod Verify
pub mod Links
pub mod Listed
use webtsan.Prelude.{
  ℕ, zero, suc, ◌+◌, ◌==◌, Bool, true, false, List, [], ◌∷◌, Option, none, some, update, u64,
  Outcome, ok, undefined, ◌>>=◌, if◌then◌else◌, ◌||◌, ◌&&◌,
}
use webtsan.Futex.Maps.{Map, find, put, remove_key}

-- The isolate and the backing store of an asynchronous waiter. The time is none while it is the null
-- time, and the id of the task while it is `kInvalidTaskId`; a weak handle is none once it is empty.
pub record AsyncState : Type 0 where
  pub isolate_for_async_waiters : ℕ
  pub backing_store : ℕ
  pub timeout_time : Option ℕ
  pub timeout_task_id : Option ℕ
  pub waiting_for_main_thread_cleanup : Bool
  pub promise : Option ℕ
  pub native_context : Option ℕ

pub record FutexWaitListNode : Type 0 where
  pub prev : Option ℕ
  pub next : Option ℕ
  pub wait_location : ℕ
  pub waiting : Bool
  pub interrupted : Bool
  pub async_state : Option AsyncState

pub record HeadAndTail : Type 0 where
  pub head : ℕ
  pub tail : ℕ

abbrev pub head_and_tail : ℕ → ℕ → HeadAndTail
head_and_tail h t = record { head = h; tail = t }

-- What a call does beyond the list: it notifies the condition variable of a node, posts the task that
-- resolves the promises of an isolate, posts the task of a timeout with its id and its node, resolves
-- a promise with "ok" or with "timed-out", and deletes a node.
pub data FutexEvent : Type 0 where
  notified : ℕ → FutexEvent
  posted_resolve : ℕ → FutexEvent
  posted_timeout : ℕ → ℕ → FutexEvent
  resolved_ok : ℕ → FutexEvent
  resolved_timed_out : ℕ → FutexEvent
  deleted : ℕ → FutexEvent

-- The list with the nodes that its pointers reach, the sets `atomics_waitasync_promises` of the native
-- contexts, and the events so far, newest first.
pub record FutexWaitList : Type 0 where
  pub nodes : ℕ → FutexWaitListNode
  pub location_lists : Map HeadAndTail
  pub isolate_promises_to_resolve : Map HeadAndTail
  pub waitasync_promises : ℕ → List ℕ
  pub events : List FutexEvent

-- The address that waiters at an index of a buffer share.
abbrev pub to_wait_location : ℕ → ℕ → ℕ
to_wait_location buffer_start addr = u64 (buffer_start + addr)

abbrev pub set_node : FutexWaitList → ℕ → FutexWaitListNode → FutexWaitList
set_node w n node = record w { nodes = update w.nodes n node }

abbrev pub set_prev : FutexWaitList → ℕ → Option ℕ → FutexWaitList
set_prev w n p = set_node w n (record (w.nodes n) { prev = p })

abbrev pub set_next : FutexWaitList → ℕ → Option ℕ → FutexWaitList
set_next w n p = set_node w n (record (w.nodes n) { next = p })

abbrev pub set_waiting : FutexWaitList → ℕ → Bool → FutexWaitList
set_waiting w n b = set_node w n (record (w.nodes n) { waiting = b })

abbrev pub set_interrupted : FutexWaitList → ℕ → Bool → FutexWaitList
set_interrupted w n b = set_node w n (record (w.nodes n) { interrupted = b })

abbrev pub set_async : FutexWaitList → ℕ → AsyncState → FutexWaitList
set_async w n a = set_node w n (record (w.nodes n) { async_state = some a })

abbrev pub with_event : FutexWaitList → FutexEvent → FutexWaitList
with_event w e = record w { events = e ∷ w.events }

-- `node->async_state_->`, which is undefined for a synchronous waiter.
abbrev pub with_async {ℓ} : {A : Type ℓ} → FutexWaitList → ℕ → (AsyncState → Outcome A) → Outcome A
with_async w n f = elim ((w.nodes n).async_state) [ none ↦ undefined | some a ↦ f a ]

abbrev pub is_async : FutexWaitListNode → Bool
is_async node = elim (node.async_state) [ none ↦ false | some _ ↦ true ]

abbrev pub is_isolate : FutexWaitListNode → ℕ → Bool
is_isolate node isolate = elim (node.async_state) [
  | none ↦ false
  | some a ↦ a.isolate_for_async_waiters == isolate
]

abbrev pub add_to : FutexWaitList → ℕ → ℕ → Option HeadAndTail → FutexWaitList
add_to w n l none = record w { location_lists = put w.location_lists l (head_and_tail n n) }
add_to w n l (some it) =
    let linked = set_prev (set_next w it.tail (some n)) n (some it.tail) in
    record linked { location_lists = put linked.location_lists l (head_and_tail it.head n) }

unfoldable pub add_node : FutexWaitList → ℕ → FutexWaitList
add_node w n =
    add_to w n (w.nodes n).wait_location (find w.location_lists (w.nodes n).wait_location)

-- The last node of a list that has others: its predecessor becomes the tail.
abbrev pub remove_tail : FutexWaitList → ℕ → ℕ → ℕ → Option HeadAndTail → Outcome FutexWaitList
remove_tail w n l p none = undefined
remove_tail w n l p (some it) =
    let linked = set_prev (set_next w p none) n none in
    ok (record linked { location_lists = put linked.location_lists l (head_and_tail it.head p) })

-- The first node of a list that has others: its successor becomes the head.
abbrev pub remove_head : FutexWaitList → ℕ → ℕ → ℕ → Option HeadAndTail → Outcome FutexWaitList
remove_head w n l q none = undefined
remove_head w n l q (some it) =
    let linked = set_next (set_prev w q none) n none in
    ok (record linked { location_lists = put linked.location_lists l (head_and_tail q it.tail) })

-- The four cases of the links of the node.
abbrev pub remove_linked : FutexWaitList → ℕ → ℕ → Option ℕ → Option ℕ → Outcome FutexWaitList
remove_linked w n l none none = ok (record w { location_lists = remove_key w.location_lists l })
remove_linked w n l (some p) (some q) =
    ok (set_next (set_prev (set_prev (set_next w p (some q)) q (some p)) n none) n none)
remove_linked w n l (some p) none = remove_tail w n l p (find w.location_lists l)
remove_linked w n l none (some q) = remove_head w n l q (find w.location_lists l)

unfoldable pub remove_node : FutexWaitList → ℕ → Outcome FutexWaitList
remove_node w n = remove_linked w n (w.nodes n).wait_location (w.nodes n).prev (w.nodes n).next
