-- ===== src/Futex/Wake.antt =====
-- `FutexEmulation::Wake` of patches/v8/modified-files/src/execution/futex-emulation.cc, with the hook on
-- a notification, and `NotifyWake`.
pub mod Chosen
pub mod Woken
pub mod Stale
pub mod Waiter
use webtsan.Prelude.{
  ℕ, zero, suc, ◌+◌, ◌-◌, ◌==◌, ◌&&◌, Bool, true, false, not, Option, none, some, uint32_max,
  Outcome, ok, undefined, ◌>>=◌, if◌then◌else◌,
}
use webtsan.Caller.{Caller}
use webtsan.Callbacks.{WebTSanCallbacks}
use webtsan.Futex.Maps.{find}
use webtsan.Futex.{
  AsyncState, FutexWaitListNode, FutexWaitList, HeadAndTail, notified, set_waiting, set_interrupted,
  set_async, with_event, to_wait_location,
}
use webtsan.Futex.Async.{notify_async_waiter, call_hook}

unfoldable pub notify_wake : FutexWaitList → ℕ → FutexWaitList
notify_wake w n = with_event (set_interrupted w n true) (notified n)

-- `kWakeAll`, UINT32_MAX.
abbrev pub k_wake_all : ℕ
k_wake_all = uint32_max

abbrev pub one_fewer : ℕ → ℕ
one_fewer num = if num == k_wake_all then num else num - 1

-- A node that matches is woken: an asynchronous one leaves the list, a synchronous one leaves it when its
-- own thread runs.
abbrev pub wake_as : Option AsyncState → FutexWaitList → ℕ → Outcome FutexWaitList
wake_as none w n = ok (with_event w (notified n))
wake_as (some a) w n = notify_async_waiter w n

unfoldable pub wake_node : FutexWaitList → ℕ → Outcome FutexWaitList
wake_node w n = wake_as (w.nodes n).async_state (set_waiting w n false) n

-- A node whose backing store is gone is cleaned up where it has no timeout.
abbrev pub clean_up_as : Option ℕ → FutexWaitList → ℕ → AsyncState → Outcome FutexWaitList
clean_up_as (some t) w n a = ok w
clean_up_as none w n a =
    notify_async_waiter
      (set_waiting (set_async w n (record a { waiting_for_main_thread_cleanup = true })) n false) n

unfoldable pub clean_up_node : FutexWaitList → ℕ → AsyncState → Outcome FutexWaitList
clean_up_node w n a = clean_up_as a.timeout_time w n a

-- What a round of the loop does with a node.
pub data WakeCase : Type 0 where
  passed : WakeCase
  matching : WakeCase
  stale : AsyncState → WakeCase

-- The rest of the loop.
abbrev pub WakeRest : Type 0
WakeRest = FutexWaitList → Option ℕ → ℕ → ℕ → Outcome (FutexWaitList × ℕ)

-- The next node is read before the node is woken, and after it is cleaned up.
unfoldable pub wake_turn :
    WakeCase → FutexWaitList → ℕ → (num woken : ℕ) → WakeRest → Outcome (FutexWaitList × ℕ)
wake_turn passed w n num woken rest = rest w (w.nodes n).next num woken
wake_turn matching w n num woken rest =
    wake_node w n >>= (λ w1. rest w1 (w.nodes n).next (one_fewer num) (woken + 1))
wake_turn (stale a) w n num woken rest =
    clean_up_node w n a >>= (λ w1. rest w1 (w1.nodes n).next num woken)

-- The backing stores that are gone.
module _ (expired : ℕ → Bool) where
  abbrev pub matching_case : Option AsyncState → WakeCase
  matching_case none = matching
  matching_case (some a) = if expired a.backing_store then stale a else matching

  abbrev pub wake_case : FutexWaitListNode → WakeCase
  wake_case node = if node.waiting then matching_case node.async_state else passed

  unfoldable pub wake_loop :
      ℕ → FutexWaitList → Option ℕ → (num woken : ℕ) → Outcome (FutexWaitList × ℕ)
  wake_loop fuel w none num woken = ok (w, woken)
  wake_loop fuel w (some n) zero woken = ok (w, woken)
  wake_loop zero w (some n) (suc num) woken = undefined
  wake_loop (suc fuel) w (some n) (suc num) woken =
      wake_turn (wake_case (w.nodes n)) w n (suc num) woken (wake_loop fuel)

  abbrev pub wake_entry : ℕ → FutexWaitList → ℕ → Option HeadAndTail → Outcome (FutexWaitList × ℕ)
  wake_entry fuel w num none = ok (w, 0)
  wake_entry fuel w num (some it) = wake_loop fuel w (some it.head) num 0

  unfoldable pub wake_list : ℕ → FutexWaitList → ℕ → ℕ → Outcome (FutexWaitList × ℕ)
  wake_list fuel w location num = wake_entry fuel w num (find w.location_lists location)

  -- The flag `--wasm-tsan` and the table of callbacks.
  module _ (wasm_tsan : Bool) (cbs : WebTSanCallbacks) where
    unfoldable pub wake : ℕ → Caller → FutexWaitList → ℕ → ℕ → Outcome (Caller × FutexWaitList × ℕ)
    wake fuel x w location num =
        call_hook wasm_tsan cbs cbs.on_atomics_notify_cb x location >>= λ y.
        wake_list fuel w location num >>= λ (w1, woken). ok (y, w1, woken)

    unfoldable pub wake_buffer :
        ℕ → Caller → FutexWaitList → ℕ → ℕ → ℕ → Outcome (Caller × FutexWaitList × ℕ)
    unfolding wake
    wake_buffer fuel x w buffer_start addr num =
        wake fuel x w (to_wait_location buffer_start addr) num

-- The loop for the wait queue of an object, whose waiters are all synchronous.
unfoldable pub wake_managed :
    ℕ → FutexWaitList → Option ℕ → (num woken : ℕ) → Outcome (FutexWaitList × ℕ)
wake_managed fuel w none num woken = ok (w, woken)
wake_managed fuel w (some n) zero woken = ok (w, woken)
wake_managed zero w (some n) (suc num) woken = undefined
wake_managed (suc fuel) w (some n) (suc num) woken = elim ((w.nodes n).waiting) [
  | false ↦ wake_managed fuel w (w.nodes n).next (suc num) woken
  | true ↦
      let w1 = with_event (set_waiting w n false) (notified n) in
      wake_managed fuel w1 (w1.nodes n).next (one_fewer (suc num)) (woken + 1)
]
