-- ===== src/Futex/Wait.antt =====
-- The synchronous waiters of patches/v8/modified-files/src/execution/futex-emulation.cc, with the hook
-- after a wait.
pub mod Waits
pub mod Leaves
use webtsan.Prelude.{
  ℕ, ◌+◌, ◌^◌, ◌==◌, Bool, not, true, false, List, [], ◌∷◌, Option, none, some, leb, Outcome, ok,
  ◌>>=◌, if◌then◌else◌,
}
use webtsan.Caller.{Caller}
use webtsan.Callbacks.{WebTSanCallbacks}
use webtsan.Futex.{
  FutexWaitListNode, FutexWaitList, set_node, set_waiting, set_interrupted, to_wait_location,
  add_node, remove_node,
}
use webtsan.Futex.Async.{call_hook}

pub data WaitReturnValue : Type 0 where
  k_ok : WaitReturnValue
  k_not_equal_value : WaitReturnValue
  k_timed_out : WaitReturnValue

-- A small integer, or the object of an interrupt that ends the wait.
pub data WaitResult : Type 0 where
  smi : WaitReturnValue → WaitResult
  interrupt_object : ℕ → WaitResult

-- What a script receives.
pub data JsResult : Type 0 where
  ok_string : JsResult
  not_equal_string : JsResult
  timed_out_string : JsResult
  object : ℕ → JsResult

unfoldable pub wait_js_translate_return : WaitResult → JsResult
wait_js_translate_return (smi k_ok) = ok_string
wait_js_translate_return (smi k_not_equal_value) = not_equal_string
wait_js_translate_return (smi k_timed_out) = timed_out_string
wait_js_translate_return (interrupt_object o) = object o

-- What a round of the loop meets: what other threads do while the interrupts are handled without the
-- mutex, the object of an exception if there is one, the time, and what other threads do while the
-- thread sleeps on its condition variable.
pub record Round : Type 0 where
  pub handled : FutexWaitList → FutexWaitList
  pub exception : Option ℕ
  pub now : ℕ
  pub slept : FutexWaitList → FutexWaitList

pub data RoundResult : Type 0 where
  done : WaitResult → FutexWaitList → RoundResult
  again : FutexWaitList → RoundResult

-- The node, and the time of the timeout where there is one.
module _ (n : ℕ) (timeout : Option ℕ) where
  abbrev pub sleep : Round → FutexWaitList → RoundResult
  sleep r w = elim timeout [
    | none ↦ again (r.slept w)
    | some t ↦ if leb t r.now then done (smi k_timed_out) w else again (r.slept w)
  ]

  abbrev pub after_interrupts : Round → FutexWaitList → RoundResult
  after_interrupts r w =
      if (w.nodes n).interrupted
      then again w
      else if (w.nodes n).waiting
      then sleep r w
      else done (smi k_ok) w

  abbrev pub handle_interrupts : Round → FutexWaitList → RoundResult
  handle_interrupts r w = elim (r.exception) [
    | none ↦ after_interrupts r w
    | some o ↦ done (interrupt_object o) w
  ]

  unfoldable pub wait_round : Round → FutexWaitList → RoundResult
  wait_round r w =
      if (w.nodes n).interrupted
      then handle_interrupts r (r.handled (set_interrupted w n false))
      else after_interrupts r w

  -- None while the thread waits at the end of the rounds.
  unfoldable pub wait_loop : List Round → FutexWaitList → Option (WaitResult × FutexWaitList)
  wait_loop [] w = none
  wait_loop (r ∷ rs) w = elim (wait_round r w) [
    | done res w1 ↦ some (res, w1)
    | again w1 ↦ wait_loop rs w1
  ]

abbrev pub set_location : FutexWaitList → ℕ → Option ℕ → FutexWaitList
set_location w n none = w
set_location w n (some l) = set_node w n (record (w.nodes n) { wait_location = l })

-- The methods of the list that the template is given.
module _ (add : FutexWaitList → ℕ → FutexWaitList)
    (remove : FutexWaitList → ℕ → Outcome FutexWaitList) where
  -- After the loop the node leaves the list.
  abbrev pub leave :
      ℕ → Option (WaitResult × FutexWaitList) → Outcome (Option (WaitResult × FutexWaitList))
  leave n none = ok none
  leave n (some (res, w)) = remove (set_waiting w n false) n >>= λ w1. ok (some (res, w1))

  unfoldable pub wait_sync_impl :
      ℕ
      → Option ℕ
      → Option ℕ
      → (value loaded_value : ℕ) → List Round
      → FutexWaitList
      → Outcome (Option (WaitResult × FutexWaitList))
  unfolding wait_loop
  wait_sync_impl n timeout wait_location value loaded_value rounds w =
      if loaded_value == value
      then leave n
          (wait_loop n timeout rounds (add (set_waiting (set_location w n wait_location) n true) n))
      else ok (some (smi k_not_equal_value, w))

-- An int64_t is its two's complement.
abbrev pub is_negative : ℕ → Bool
is_negative n = leb (2 ^ 63) n

-- The deadline, `base::TimeTicks::Now()` on entry with `TimeDelta::FromNanoseconds` of the timeout.
abbrev pub timeout_time : (ℕ → ℕ) → Bool → ℕ → Option ℕ
timeout_time deadline use_timeout rel_timeout_ns =
    if use_timeout then some (deadline rel_timeout_ns) else none

-- The flag `--wasm-tsan`, the table of callbacks, the memory as the width of the call reads it, deadlines,
-- and what other threads have done to the detector by the end of the wait.
module _ (wasm_tsan : Bool) (cbs : WebTSanCallbacks) (load : ℕ → ℕ) (deadline : ℕ → ℕ)
    (meanwhile : Caller → Caller) where
  -- The hook is called whatever the wait came to.
  abbrev pub wait_complete :
      Caller
      → ℕ
      → Option (WaitResult × FutexWaitList)
      → Outcome (Caller × Option (WaitResult × FutexWaitList))
  wait_complete x location none = ok (x, none)
  wait_complete x location (some r) =
      call_hook wasm_tsan cbs cbs.on_atomics_wait_complete_cb (meanwhile x) location
      >>= (λ y. ok (y, some r))

  unfoldable pub wait_sync :
      ℕ
      → (wait_location value : ℕ) → Bool
      → ℕ
      → List Round
      → Caller
      → FutexWaitList
      → Outcome (Caller × Option (WaitResult × FutexWaitList))
  unfolding wait_sync_impl add_node remove_node
  wait_sync n wait_location value use_timeout rel_timeout_ns rounds x w =
      wait_sync_impl add_node remove_node n (timeout_time deadline use_timeout rel_timeout_ns)
        (some wait_location) value (load wait_location) rounds w
      >>= (λ r. wait_complete x wait_location r)

  -- `memory.atomic.wait32` and `memory.atomic.wait64` differ in the width of the load.
  unfoldable pub wait_wasm :
      ℕ
      → (buffer_start addr value rel_timeout_ns : ℕ) → List Round
      → Caller
      → FutexWaitList
      → Outcome (Caller × Option (WaitResult × FutexWaitList))
  unfolding wait_sync
  wait_wasm n buffer_start addr value rel_timeout_ns rounds x w =
      wait_sync n (to_wait_location buffer_start addr) value (not (is_negative rel_timeout_ns))
        rel_timeout_ns rounds x w

-- A wait at an object, whose list has its own methods. The location of the node stays, and there is no hook.
abbrev pub wait_wasm_managed_object :
    (FutexWaitList → ℕ → FutexWaitList)
    → (FutexWaitList → ℕ → Outcome FutexWaitList)
    → (ℕ → ℕ)
    → ℕ
    → (expected_value control_value rel_timeout_ns : ℕ) → List Round
    → FutexWaitList
    → Outcome (Option (WaitResult × FutexWaitList))
wait_wasm_managed_object add remove deadline n expected_value control_value rel_timeout_ns rounds
      w =
    wait_sync_impl add remove n
      (timeout_time deadline (not (is_negative rel_timeout_ns)) rel_timeout_ns) none expected_value
      control_value rounds w
