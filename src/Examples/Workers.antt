-- ===== src/Examples/Workers.antt =====
-- Instances of the theorems on workers.
use webtsan.Prelude.{◌<◌, refl, arith, Returns}
use webtsan.Epochs.{own}
use webtsan.Threads.{thread_create}
use webtsan.Threads.Reuse.{thread_create_reuse}
use webtsan.Caller.{Caller, caller, with_tsan, get_current_tid}
use webtsan.Workers.{start_worker, stop_worker}
use webtsan.Workers.Lifecycle.{IsRunning, IsStopped, worker_lifecycle}
use webtsan.TestData.{two_threads, two_threads-EpochsAreReached, two_threads-HasRoom}

thread_create_reuse_example :
    Returns (λ r. own two_threads r.1 < own r.0 r.1) (thread_create two_threads 0)
thread_create_reuse_example =
    thread_create_reuse two_threads 0 5 two_threads-EpochsAreReached two_threads-HasRoom
      (omega arith) refl

-- A thread of its own, which has no id.
abbrev newcomer : Caller
newcomer = with_tsan caller two_threads

worker_lifecycle_example :
    Returns
      (λ y. IsRunning two_threads y × Returns (IsStopped (get_current_tid y)) (stop_worker y))
      (start_worker newcomer)
worker_lifecycle_example =
    worker_lifecycle newcomer 5 refl two_threads-EpochsAreReached two_threads-HasRoom (omega arith)
      refl
