-- ===== src/Sync/Results.antt =====
-- What the synchronisation calls return, while the detector is enabled and the thread has a slot.
use webtsan.Prelude.{ℕ, ◌<◌, ◌≡◌, true, false, some, none, arith, refl, ok, lt→ltb, leb}
use webtsan.Clock.{VClock, k_max_threads}
use webtsan.Detector.{WebTSan, join_thread}
use webtsan.Sync.{
  acquire, release, publish, mutex_post_lock, mutex_unlock, mutex_read_lock, mutex_read_unlock,
}

module _ (t : WebTSan) (tid addr : ℕ) (on : t.enabled ≡ true) (h : tid < k_max_threads) where
  pub release-ok : release t tid addr ≡ ok (publish t tid addr)
  unfolding release
  release-ok = ground (arith, lt→ltb tid 64 h)

  pub acquire-ok :
      (c : VClock) → t.sync_clocks addr ≡ some c → acquire t tid addr ≡ ok (join_thread t tid c)
  unfolding acquire
  acquire-ok c e = ground (arith, lt→ltb tid 64 h)

  pub acquire_unknown : t.sync_clocks addr ≡ none → acquire t tid addr ≡ ok t
  unfolding acquire
  acquire_unknown e = ground (arith, lt→ltb tid 64 h)

  -- With a thread that has a slot, the mutex calls are those of `Acquire` and `Release`: `MutexPostLock` and
  -- `MutexReadLock` return what `Acquire` does, `MutexUnlock` what `Release` does, and
  -- `MutexReadUnlock` leaves the state as it is.
  pub mutex_calls :
      (mutex_post_lock t tid addr ≡ acquire t tid addr)
      × (mutex_read_lock t tid addr ≡ acquire t tid addr)
      × (mutex_unlock t tid addr ≡ release t tid addr)
      × (mutex_read_unlock t tid addr ≡ t)
  unfolding acquire release mutex_post_lock mutex_read_lock mutex_unlock mutex_read_unlock
  mutex_calls =
      let small : leb 64 tid ≡ false = ground arith in
      (simp (on, small), simp (on, small), simp (on, small), refl)
