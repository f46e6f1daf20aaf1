-- ===== src/Examples/Lifecycle.antt =====
-- Instances of the theorems on the lifecycle of threads.
use webtsan.Prelude.{ℕ, ◌≡◌, ◌≢◌, ◌<◌, ◌⊎◌, refl, true, false, arith, ok}
use webtsan.Clock.{k_max_threads, join}
use webtsan.Threads.{thread_create, start_thread, thread_finish}
use webtsan.Threads.Slots.{slot, thread_create-slot}
use webtsan.Threads.Finish.{thread_finish-clocks}
use webtsan.TestData.{two_threads}

thread_create-slot_example :
    (thread_create two_threads 0
      ≡ ok (start_thread two_threads (slot two_threads) 0, slot two_threads))
    × (slot two_threads < k_max_threads)
    × ((c : ℕ)
        → c < k_max_threads
        → two_threads.thread_alive c ≡ false
        → two_threads.thread_alive (slot two_threads) ≡ false)
    × (((c : ℕ) → c < k_max_threads → two_threads.thread_alive c ≡ true)
        → (slot two_threads ≡ two_threads.next_tid)
          × (two_threads.thread_alive (slot two_threads) ≡ true))
thread_create-slot_example = thread_create-slot two_threads 0 (omega arith)

thread_finish-clocks_example :
    let t' = thread_finish two_threads 1 in
    (t'.orphan_clock ≡ join two_threads.orphan_clock (two_threads.thread_clocks 1))
    × ((u : ℕ)
        → u < k_max_threads
        → u ≢ 1
        → two_threads.thread_alive u ≡ true
        → t'.thread_clocks u ≡ join (two_threads.thread_clocks u) (two_threads.thread_clocks 1))
    × ((u : ℕ)
        → (u ≡ 1) ⊎ (two_threads.thread_alive u ≡ false)
        → t'.thread_clocks u ≡ two_threads.thread_clocks u)
    × (t'.thread_alive ≡ two_threads.thread_alive)
thread_finish-clocks_example = thread_finish-clocks two_threads 1 refl (omega arith)
