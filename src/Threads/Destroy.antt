-- ===== src/Threads/Destroy.antt =====
-- `ThreadDestroy` frees the slot.
use webtsan.Prelude.{
  ℕ, ◌<◌, ◌≡◌, true, false, Returns, update, lt→ltb, update_same, if-cases, ◌&&◌, Outcome,
}
use webtsan.Clock.{k_max_threads}
use webtsan.Detector.{WebTSan}
use webtsan.Threads.{thread_destroy}

pub thread_destroy-thread_alive :
    (t : WebTSan) (tid : ℕ)
    → tid < k_max_threads
    → t.enabled ≡ true
    → Returns (λ u. u.thread_alive tid ≡ false) (thread_destroy t tid)
unfolding thread_destroy
thread_destroy-thread_alive t tid h on =
    if-cases P t.enabled
      (λ _. rw (lt→ltb tid 64 h) (
        if-cases (λ (u : WebTSan). update u.thread_alive tid false tid ≡ false)
          (true && t.thread_alive tid) (λ _. update_same t.thread_alive tid false)
          (λ _. update_same t.thread_alive tid false)))
      (λ off. cc (on, off))
  where
    P : Outcome WebTSan → Type 0
    P = Returns (λ u. u.thread_alive tid ≡ false)
