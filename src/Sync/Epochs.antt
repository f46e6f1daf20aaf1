-- ===== src/Sync/Epochs.antt =====
-- The synchronisation calls keep the invariant of the epochs.
use webtsan.Prelude.{
  ℕ, ◌<◌, ◌≡◌, true, some, none, not, arith, ok, Returns, Option-cases, if-cases, inl, inr, lt→ltb,
  leb, erase, ◌||◌,
}
use webtsan.Clock.{k_max_threads}
use webtsan.Detector.{WebTSan, join_thread, at_index}
use webtsan.Epochs.{EpochsAreReached, HasRoom}
use webtsan.Epochs.Clocks.{
  join_thread-EpochsAreReached, increment_thread-EpochsAreReached, insert_sync-EpochsAreReached,
}
use webtsan.Sync.{
  acquire, release, publish, mutex_create, mutex_destroy, mutex_post_lock, mutex_unlock,
  mutex_read_lock,
}

erase_sync-EpochsAreReached :
    (t : WebTSan) (a : ℕ)
    → EpochsAreReached t
    → EpochsAreReached (record t { sync_clocks = erase t.sync_clocks a })
erase_sync-EpochsAreReached t a v = record {
  next_small = v.next_small;
  threads = v.threads;
  orphan = v.orphan;
  syncs = λ k c e. v.syncs k c (ground arith);
  edges = v.edges;
  retired = v.retired;
  sizes = v.sizes;
  cells = v.cells;
}

module _ (t : WebTSan) (tid addr : ℕ) (v : EpochsAreReached t) (h : tid < k_max_threads) where
  pub publish-EpochsAreReached :
      HasRoom t → t.thread_alive tid ≡ true → EpochsAreReached (publish t tid addr)
  publish-EpochsAreReached room alive =
      increment_thread-EpochsAreReached _ tid (insert_sync-EpochsAreReached t tid v h addr) h room
        alive

  -- What `Acquire`, `MutexPostLock` and `MutexReadLock` come to behind their guards.
  found-EpochsAreReached :
      Returns EpochsAreReached (elim (t.sync_clocks addr) [
        | none ↦ ok t
        | some c ↦ at_index tid (ok (join_thread t tid c))
      ])
  found-EpochsAreReached = elim (Option-cases (t.sync_clocks addr)) [
    | inl e ↦ rw e v
    | inr (c, e) ↦
        rw (e, lt→ltb tid 64 h) (join_thread-EpochsAreReached t tid v h c (v.syncs addr c e))
  ]

  pub acquire-EpochsAreReached : Returns EpochsAreReached (acquire t tid addr)
  unfolding acquire
  acquire-EpochsAreReached =
      if-cases (Returns EpochsAreReached) (not t.enabled) (λ _. v) (λ _. found-EpochsAreReached)

  pub release-EpochsAreReached :
      HasRoom t → t.thread_alive tid ≡ true → Returns EpochsAreReached (release t tid addr)
  unfolding release
  release-EpochsAreReached room alive =
      if-cases (Returns EpochsAreReached) (not t.enabled) (λ _. v)
        (λ _. rw (lt→ltb tid 64 h) (publish-EpochsAreReached room alive))

  pub mutex_unlock-EpochsAreReached :
      HasRoom t → t.thread_alive tid ≡ true → Returns EpochsAreReached (mutex_unlock t tid addr)
  unfolding mutex_unlock
  mutex_unlock-EpochsAreReached room alive =
      if-cases (Returns EpochsAreReached) (not t.enabled || leb k_max_threads tid) (λ _. v)
        (λ _. rw (lt→ltb tid 64 h) (publish-EpochsAreReached room alive))

  pub mutex_post_lock-EpochsAreReached : Returns EpochsAreReached (mutex_post_lock t tid addr)
  unfolding mutex_post_lock
  mutex_post_lock-EpochsAreReached =
      if-cases (Returns EpochsAreReached) (not t.enabled || leb k_max_threads tid) (λ _. v)
        (λ _. found-EpochsAreReached)

  pub mutex_read_lock-EpochsAreReached : Returns EpochsAreReached (mutex_read_lock t tid addr)
  unfolding mutex_read_lock
  mutex_read_lock-EpochsAreReached =
      if-cases (Returns EpochsAreReached) (not t.enabled || leb k_max_threads tid) (λ _. v)
        (λ _. found-EpochsAreReached)

pub mutex_create-EpochsAreReached :
    (t : WebTSan) (a : ℕ) → EpochsAreReached t → EpochsAreReached (mutex_create t a)
unfolding mutex_create
mutex_create-EpochsAreReached t a v =
    if-cases EpochsAreReached (not t.enabled) (λ _. v) (λ _. erase_sync-EpochsAreReached t a v)

pub mutex_destroy-EpochsAreReached :
    (t : WebTSan) (a : ℕ) → EpochsAreReached t → EpochsAreReached (mutex_destroy t a)
unfolding mutex_destroy
mutex_destroy-EpochsAreReached t a v =
    if-cases EpochsAreReached (not t.enabled) (λ _. v) (λ _. erase_sync-EpochsAreReached t a v)
