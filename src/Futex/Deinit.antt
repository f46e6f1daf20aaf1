-- ===== src/Futex/Deinit.antt =====
-- The end of an isolate, and the counts for tests, of
-- patches/v8/modified-files/src/execution/futex-emulation.cc.
use webtsan.Prelude.{
  ℕ, zero, suc, ◌+◌, ◌==◌, ◌&&◌, Bool, true, false, not, [], ◌∷◌, Option, none, some, Outcome, ok,
  undefined, ◌>>=◌, if◌then◌else◌,
}
use webtsan.Futex.Maps.{Map, find, remove_key}
use webtsan.Futex.{
  HeadAndTail, head_and_tail, FutexWaitListNode, FutexWaitList, set_async, with_async, is_isolate,
  to_wait_location,
}
use webtsan.Futex.Async.{delete_async_waiter_node}

abbrev pub first_or : Option ℕ → ℕ → Option ℕ
first_or none n = some n
first_or (some h) n = some h

-- A node of the isolate loses its task and is deleted.
unfoldable pub delete_waiter : FutexWaitList → ℕ → Outcome (FutexWaitList × Option ℕ)
unfolding delete_async_waiter_node
delete_waiter w n =
    with_async w n
      (λ a. ok (delete_async_waiter_node (set_async w n (record a { timeout_task_id = none })) n))

-- What is left of a list: the state, the head and the tail.
abbrev pub Remaining : Type 0
Remaining = FutexWaitList × Option ℕ × Option ℕ

unfoldable pub delete_nodes_loop :
    ℕ → ℕ → FutexWaitList → Option ℕ → (new_head new_tail : Option ℕ) → Outcome Remaining
delete_nodes_loop fuel isolate w none new_head new_tail = ok (w, new_head, new_tail)
delete_nodes_loop zero isolate w (some n) new_head new_tail = undefined
delete_nodes_loop (suc fuel) isolate w (some n) new_head new_tail =
    elim (is_isolate (w.nodes n) isolate) [
      | true ↦ delete_waiter w n >>= λ (w1, next).
          delete_nodes_loop fuel isolate w1 next new_head new_tail
      | false ↦ delete_nodes_loop fuel isolate w (w.nodes n).next (first_or new_head n) (some n)
    ]

unfoldable pub delete_nodes_for_isolate : ℕ → ℕ → FutexWaitList → HeadAndTail → Outcome Remaining
delete_nodes_for_isolate fuel isolate w it =
    delete_nodes_loop fuel isolate w (some it.head) none none

-- The entry of a location, which goes where no node is left.
abbrev pub kept_entry : ℕ → Option ℕ → Option ℕ → Map HeadAndTail → Map HeadAndTail
kept_entry l (some h) (some t) rest = (l, head_and_tail h t) ∷ rest
kept_entry l h t rest = rest

unfoldable pub deinit_lists :
    ℕ → ℕ → FutexWaitList → Map HeadAndTail → Outcome (FutexWaitList × Map HeadAndTail)
deinit_lists fuel isolate w [] = ok (w, [])
deinit_lists fuel isolate w ((l, it) ∷ rest) =
    delete_nodes_for_isolate fuel isolate w it >>= λ (w1, h, t).
    deinit_lists fuel isolate w1 rest >>= λ (w2, kept). ok (w2, kept_entry l h t kept)

-- The nodes of the isolate whose promises are not resolved yet.
unfoldable pub deinit_promises_loop : ℕ → FutexWaitList → Option ℕ → Outcome FutexWaitList
deinit_promises_loop fuel w none = ok w
deinit_promises_loop zero w (some n) = undefined
deinit_promises_loop (suc fuel) w (some n) =
    delete_waiter w n >>= λ (w1, next). deinit_promises_loop fuel w1 next

unfoldable pub deinit_promises : ℕ → ℕ → FutexWaitList → Outcome FutexWaitList
deinit_promises fuel isolate w = elim (find w.isolate_promises_to_resolve isolate) [
  | none ↦ ok w
  | some it ↦ deinit_promises_loop fuel w (some it.head) >>= (λ w1. ok (record w1 {
    isolate_promises_to_resolve = remove_key w1.isolate_promises_to_resolve isolate;
  }))
]

unfoldable pub isolate_deinit : ℕ → ℕ → FutexWaitList → Outcome FutexWaitList
isolate_deinit fuel isolate w = deinit_lists fuel isolate w w.location_lists >>= λ (w1, kept).
    deinit_promises fuel isolate (record w1 { location_lists = kept })

-- The backing stores that are gone.
module _ (expired : ℕ → Bool) where
  abbrev pub is_expired : FutexWaitListNode → Bool
  is_expired node = elim (node.async_state) [ none ↦ false | some a ↦ expired a.backing_store ]

  abbrev pub counts_waiter : FutexWaitListNode → Bool
  counts_waiter node = node.waiting && not (is_expired node)

  unfoldable pub count_waiters : ℕ → FutexWaitList → Option ℕ → ℕ → Outcome ℕ
  count_waiters fuel w none num_waiters = ok num_waiters
  count_waiters zero w (some n) num_waiters = undefined
  count_waiters (suc fuel) w (some n) num_waiters =
      count_waiters fuel w (w.nodes n).next
        (if counts_waiter (w.nodes n) then num_waiters + 1 else num_waiters)

  unfoldable pub num_waiters_for_testing : ℕ → FutexWaitList → ℕ → ℕ → Outcome ℕ
  num_waiters_for_testing fuel w buffer_start addr =
      elim (find w.location_lists (to_wait_location buffer_start addr)) [
        | none ↦ ok 0
        | some it ↦ count_waiters fuel w (some it.head) 0
      ]

  abbrev pub counts_unresolved : FutexWaitListNode → ℕ → Bool
  counts_unresolved node location =
      not node.waiting && (location == node.wait_location) && not (is_expired node)

  unfoldable pub count_unresolved : ℕ → FutexWaitList → ℕ → Option ℕ → ℕ → Outcome ℕ
  count_unresolved fuel w location none num_waiters = ok num_waiters
  count_unresolved zero w location (some n) num_waiters = undefined
  count_unresolved (suc fuel) w location (some n) num_waiters =
      count_unresolved fuel w location (w.nodes n).next
        (if counts_unresolved (w.nodes n) location then num_waiters + 1 else num_waiters)

  unfoldable pub count_isolates : ℕ → FutexWaitList → ℕ → Map HeadAndTail → ℕ → Outcome ℕ
  count_isolates fuel w location [] num_waiters = ok num_waiters
  count_isolates fuel w location ((isolate, it) ∷ rest) num_waiters =
      count_unresolved fuel w location (some it.head) num_waiters
      >>= (λ num. count_isolates fuel w location rest num)

  unfoldable pub num_unresolved_async_promises_for_testing : ℕ → FutexWaitList → ℕ → ℕ → Outcome ℕ
  num_unresolved_async_promises_for_testing fuel w buffer_start addr =
      count_isolates fuel w (to_wait_location buffer_start addr) w.isolate_promises_to_resolve 0
