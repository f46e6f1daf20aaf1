-- ===== src/Threads/Create.antt =====
-- The clock of a new thread.
use webtsan.Prelude.{ℕ, ◌+◌, ◌<◌, ◌≡◌, refl, update_same, ◌≢◌, true, arith, max, update, u64}
use webtsan.Clock.{VClock, k_max_threads, get}
use webtsan.Clock.Order.{get-join}
use webtsan.Detector.{WebTSan}
use webtsan.Threads.{inherited, start_thread}

-- What `ThreadCreate` finds at the parent, once the new slot is alive.
abbrev pub parent_clock : WebTSan → ℕ → ℕ → VClock
parent_clock t tid parent_tid =
    inherited (record t { thread_alive = update t.thread_alive tid true }) parent_tid

pub start_thread-own :
    (t : WebTSan) (tid parent_tid : ℕ)
    → tid < k_max_threads
    → get ((start_thread t tid parent_tid).thread_clocks tid) tid
      ≡ u64 (max (get (parent_clock t tid parent_tid) tid) (get t.orphan_clock tid) + 1)
unfolding start_thread
start_thread-own t tid p h = ground (arith, get-join (parent_clock t tid p) t.orphan_clock tid)

pub start_thread-component :
    (t : WebTSan) (tid parent_tid j : ℕ)
    → tid ≢ j
    → j < k_max_threads
    → get ((start_thread t tid parent_tid).thread_clocks tid) j
      ≡ max (get (parent_clock t tid parent_tid) j) (get t.orphan_clock j)
unfolding start_thread
start_thread-component t tid p j ne h =
    ground (arith, get-join (parent_clock t tid p) t.orphan_clock j)

pub start_thread-other :
    (t : WebTSan) (tid parent_tid u : ℕ)
    → tid ≢ u
    → (start_thread t tid parent_tid).thread_clocks u ≡ t.thread_clocks u
unfolding start_thread
start_thread-other t tid p u ne = ground arith

pub start_thread-alive :
    (t : WebTSan) (tid parent_tid : ℕ)
    → ((start_thread t tid parent_tid).thread_alive tid ≡ true)
      × ((start_thread t tid parent_tid).enabled ≡ t.enabled)
unfolding start_thread
start_thread-alive t tid p = (update_same t.thread_alive tid true, refl)
