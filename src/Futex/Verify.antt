-- ===== src/Futex/Verify.antt =====
-- `FutexWaitList::Verify` of patches/v8/modified-files/src/execution/futex-emulation.cc, which a debug
-- build calls after each change of the list, as a test.
use webtsan.Prelude.{ℕ, zero, suc, ◌==◌, ◌&&◌, Bool, true, false, not, [], ◌∷◌, Option, none, some}
use webtsan.Futex.Maps.{Map}
use webtsan.Futex.{HeadAndTail, FutexWaitListNode, FutexWaitList, is_isolate}

-- The loop ends where its fuel does, with no answer.
unfoldable pub node_is_on_list : ℕ → (ℕ → FutexWaitListNode) → ℕ → Option ℕ → Bool
node_is_on_list fuel nodes n none = false
node_is_on_list zero nodes n (some m) = false
node_is_on_list (suc fuel) nodes n (some m) = elim (m == n) [
  | true ↦ true
  | false ↦ node_is_on_list fuel nodes n (nodes m).next
]

abbrev pub is_node : Option ℕ → ℕ → Bool
is_node none n = false
is_node (some m) n = m == n

-- The next node points back, and the last one is the tail.
abbrev pub verify_next : (ℕ → FutexWaitListNode) → ℕ → ℕ → Option ℕ → Bool
verify_next nodes n tail none = n == tail
verify_next nodes n tail (some q) = not (n == tail) && is_node (nodes q).prev n

abbrev pub verify_prev : (ℕ → FutexWaitListNode) → ℕ → ℕ → Option ℕ → Bool
verify_prev nodes n head none = n == head
verify_prev nodes n head (some p) = not (n == head) && is_node (nodes p).next n

unfoldable pub verify_node : ℕ → (ℕ → FutexWaitListNode) → ℕ → HeadAndTail → Bool
unfolding node_is_on_list
verify_node fuel nodes n it =
    verify_next nodes n it.tail (nodes n).next
    && verify_prev nodes n it.head (nodes n).prev
    && node_is_on_list fuel nodes n (some it.head)

unfoldable pub verify_loop : ℕ → ℕ → (ℕ → FutexWaitListNode) → Option ℕ → HeadAndTail → Bool
verify_loop bound fuel nodes none it = true
verify_loop bound zero nodes (some n) it = false
verify_loop bound (suc fuel) nodes (some n) it =
    verify_node bound nodes n it && verify_loop bound fuel nodes (nodes n).next it

unfoldable pub verify_locations : ℕ → (ℕ → FutexWaitListNode) → Map HeadAndTail → Bool
verify_locations fuel nodes [] = true
verify_locations fuel nodes ((l, it) ∷ rest) =
    verify_loop fuel fuel nodes (some it.head) it && verify_locations fuel nodes rest

-- The nodes of a list of promises belong to its isolate, too.
unfoldable pub isolate_loop : ℕ → (ℕ → FutexWaitListNode) → Option ℕ → ℕ → Bool
isolate_loop fuel nodes none isolate = true
isolate_loop zero nodes (some n) isolate = false
isolate_loop (suc fuel) nodes (some n) isolate =
    is_isolate (nodes n) isolate && isolate_loop fuel nodes (nodes n).next isolate

unfoldable pub verify_promises : ℕ → (ℕ → FutexWaitListNode) → Map HeadAndTail → Bool
verify_promises fuel nodes [] = true
verify_promises fuel nodes ((isolate, it) ∷ rest) =
    verify_loop fuel fuel nodes (some it.head) it
    && isolate_loop fuel nodes (some it.head) isolate
    && verify_promises fuel nodes rest

unfoldable pub verify : ℕ → FutexWaitList → Bool
unfolding verify_locations verify_promises
verify fuel w =
    verify_locations fuel w.nodes w.location_lists
    && verify_promises fuel w.nodes w.isolate_promises_to_resolve
