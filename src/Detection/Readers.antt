-- ===== src/Detection/Readers.antt =====
-- Reader locks: the end of a read section publishes nothing, so what a reader did is not ordered before
-- a writer that takes the lock after it.
use webtsan.Prelude.{
  ℕ, ◌<◌, ◌≡◌, ◌≢◌, true, false, arith, refl, Returns, inl, inr, Option-cases, find_or,
}
use webtsan.Clock.{k_max_threads, get, zero_clock}
use webtsan.Clock.Order.{get-join}
use webtsan.Shadow.Cells.{access_cell}
use webtsan.Shadow.Races.{Conflicts}
use webtsan.Detector.{WebTSan}
use webtsan.Epochs.{own}
use webtsan.Sync.{mutex_read_unlock, mutex_post_lock}
use webtsan.Sync.Results.{acquire-ok, acquire_unknown, mutex_calls}

-- While the detector is enabled and both threads have a slot: a thread reads under a reader lock, ends the
-- section by `MutexReadUnlock`, and another thread then takes the lock by `MutexPostLock`. If
-- neither the lock nor the second thread knew of the epoch of the reader, the write of the second
-- thread conflicts with that read, although the lock orders the two.
pub reader_then_writer_reports :
    (t : WebTSan) (reader writer addr : ℕ)
    → t.enabled ≡ true
    → reader < k_max_threads
    → writer < k_max_threads
    → reader ≢ writer
    → get (t.thread_clocks writer) reader < own t reader
    → get (find_or t.sync_clocks addr zero_clock) reader < own t reader
    → let read = access_cell reader false (t.thread_clocks reader) in
      Returns
        (λ t2. Conflicts read writer true (t2.thread_clocks writer))
        (mutex_post_lock (mutex_read_unlock t reader addr) writer addr)
unfolding mutex_read_unlock
reader_then_writer_reports t reader writer addr on hr hw ne unknown unlocked =
    rw ((mutex_calls t writer addr on hw).0) (elim (Option-cases (t.sync_clocks addr)) [
      | inl e ↦
          rw (acquire_unknown t writer addr on hw e)
            (record { occupied = refl; foreign = ne; writes = inr refl; unordered = unknown })
      | inr (c, e) ↦ rw (acquire-ok t writer addr on hw c e) (record {
        occupied = refl;
        foreign = ne;
        writes = inr refl;
        unordered = ground (arith, get-join (t.thread_clocks writer) c reader hr);
      })
    ])
