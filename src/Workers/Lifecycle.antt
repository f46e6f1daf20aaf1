-- ===== src/Workers/Lifecycle.antt =====
-- The id of a worker, from its start to its end.
use webtsan.Prelude.{
  ℕ, ◌<◌, ◌≤◌, ◌≡◌, ◌≢◌, refl, Bool, true, false, none, some, arith, uint32_max, Returns, if-cases,
  ok, undefined, ap, update_same, lt→ltb, ◌==◌, Outcome, leb, ltb, ◌>>=◌, ◌∙◌, subst, Returns-map,
}
use webtsan.Clock.{k_max_threads}
use webtsan.Detector.{WebTSan}
use webtsan.Epochs.{own, EpochsAreReached, HasRoom}
use webtsan.Threads.{thread_destroy}
use webtsan.Threads.Slots.{slot, thread_create-slot}
use webtsan.Threads.Create.{start_thread-alive}
use webtsan.Threads.Reuse.{thread_create_reuse}
use webtsan.Threads.Epochs.{thread_create-EpochsAreReached}
use webtsan.Threads.Destroy.{thread_destroy-thread_alive}
use webtsan.Threads.Ending.{thread_destroy-EpochsAreReached}
use webtsan.Caller.{Caller, with_tsan, get_current_tid, set_current_tid}
use webtsan.Hooks.{on_worker_create, on_worker_destroy}
use webtsan.Workers.{start_worker, stop_worker}

-- The worker has an id, in a live slot, at an epoch that no thread of the slot had reached before.
pub record IsRunning (before : WebTSan) (x : Caller) : Type 0 where
  pub has_slot : get_current_tid x < k_max_threads
  pub alive : x.tsan.thread_alive (get_current_tid x) ≡ true
  pub fresh : own before (get_current_tid x) < own x.tsan (get_current_tid x)
  pub still_on : x.tsan.enabled ≡ true
  pub epochs : EpochsAreReached x.tsan

pub start_worker-IsRunning :
    (x : Caller) (c : ℕ)
    → x.tsan.enabled ≡ true
    → EpochsAreReached x.tsan
    → HasRoom x.tsan
    → c < k_max_threads
    → x.tsan.thread_alive c ≡ false
    → Returns (IsRunning x.tsan) (start_worker x)
unfolding start_worker on_worker_create set_current_tid get_current_tid
start_worker-IsRunning x c on v room lt dead =
    let made = thread_create-slot x.tsan uint32_max v.next_small in
    if-cases (Returns (IsRunning x.tsan)) x.tsan.enabled
      (λ _. rw made.0 (record {
        has_slot = made.1;
        alive = (start_thread-alive x.tsan (slot x.tsan) uint32_max).0;
        fresh =
            subst (Returns (λ r. own x.tsan r.1 < own r.0 r.1)) made.0
              (thread_create_reuse x.tsan uint32_max c v room lt dead);
        still_on = (start_thread-alive x.tsan (slot x.tsan) uint32_max).1 ∙ on;
        epochs =
            subst (Returns (λ r. EpochsAreReached r.0)) made.0
              (thread_create-EpochsAreReached x.tsan v uint32_max c room lt dead);
      }))
      (λ off. cc (on, off))

-- The worker has no id, and its slot is free.
pub record IsStopped (tid : ℕ) (x : Caller) : Type 0 where
  pub no_id : get_current_tid x ≡ uint32_max
  pub freed : x.tsan.thread_alive tid ≡ false
  pub epochs_kept : EpochsAreReached x.tsan

stopped :
    (x : Caller) (tid : ℕ) (m : Outcome WebTSan)
    → Returns EpochsAreReached m
    → Returns (λ u. u.thread_alive tid ≡ false) m
    → Returns
        (IsStopped tid)
        (m >>= (λ t. ok (with_tsan x t)) >>= (λ y. ok (set_current_tid y uint32_max)))
unfolding set_current_tid get_current_tid
stopped x tid (ok t) v free = record { no_id = refl; freed = free; epochs_kept = v }
stopped x tid webtsan.Prelude.undefined v free = v
stopped x tid webtsan.Prelude.check_failed v free = v

pub stop_worker-IsStopped :
    (x : Caller)
    → x.tsan.enabled ≡ true
    → EpochsAreReached x.tsan
    → get_current_tid x < k_max_threads
    → Returns (IsStopped (get_current_tid x)) (stop_worker x)
unfolding stop_worker on_worker_destroy
stop_worker-IsStopped x on v h =
    if-cases (Returns (IsStopped (get_current_tid x))) (get_current_tid x == uint32_max)
      (λ e. absurd (ground arith))
      (λ _.
        stopped x (get_current_tid x) (thread_destroy x.tsan (get_current_tid x))
          (thread_destroy-EpochsAreReached x.tsan v (get_current_tid x) h on)
          (thread_destroy-thread_alive x.tsan (get_current_tid x) h on))

-- While the detector is enabled, its epochs are reached, there is room for an epoch and a slot is free: a
-- worker that starts has an id in a live slot, at an epoch that no earlier thread of the slot had
-- reached, and when it stops at once it has no id and its slot is free; both calls return and keep
-- the epochs reached.
pub worker_lifecycle :
    (x : Caller) (c : ℕ)
    → x.tsan.enabled ≡ true
    → EpochsAreReached x.tsan
    → HasRoom x.tsan
    → c < k_max_threads
    → x.tsan.thread_alive c ≡ false
    → Returns
        (λ y. IsRunning x.tsan y × Returns (IsStopped (get_current_tid y)) (stop_worker y))
        (start_worker x)
worker_lifecycle x c on v room lt dead =
    Returns-map (IsRunning x.tsan) _ (start_worker x)
      (λ y r. (r, stop_worker-IsStopped y r.still_on r.epochs r.has_slot))
      (start_worker-IsRunning x c on v room lt dead)
