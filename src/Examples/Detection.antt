-- ===== src/Examples/Detection.antt =====
-- Instances of the theorems on detection, between threads 0 and 1.
use webtsan.Prelude.{◌≡◌, refl, uint32_max, ok, true, false, none, arith, Returns}
use webtsan.Shadow.Cells.{access_cell}
use webtsan.Shadow.Races.{Conflicts}
use webtsan.Sync.{acquire, release, mutex_post_lock, mutex_read_unlock}
use webtsan.Edges.{send_edge, receive_edge}
use webtsan.Threads.{start_thread}
use webtsan.Threads.Slots.{slot, thread_create-slot}
use webtsan.Caller.{caller, with_tsan}
use webtsan.Epochs.{EpochsAreReached}
use webtsan.TestData.{two_threads, two_threads-EpochsAreReached, two_threads-HasRoom}
use webtsan.Detector.{WebTSan, web_tsan, enable, increment_thread}
use webtsan.Program.{releases, creates, step}
use webtsan.Program.Reach.{step-EpochsAreReached, Reach-EpochsAreReached, Allowed, start, after}
use webtsan.Detection.Ordered.{Covers, release-acquire_ordered, send_receive_ordered}
use webtsan.Detection.Unordered.{Reports, release-Reports}
use webtsan.Detection.Readers.{reader_then_writer_reports}

release-acquire_ordered_example :
    Returns
      (λ t1. Returns (λ t2. Covers t2 1 (two_threads.thread_clocks 0)) (acquire t1 1 64))
      (release two_threads 0 64)
release-acquire_ordered_example =
    release-acquire_ordered two_threads 0 1 64 refl (omega arith) (omega arith)

send_receive_ordered_example :
    Returns
      (λ r.
        Returns
          (λ t2. Covers t2 1 (two_threads.thread_clocks 0) × (t2.hb_edges r.1 ≡ none))
          (receive_edge r.0 1 r.1))
      (send_edge two_threads 0)
send_receive_ordered_example =
    send_receive_ordered two_threads 0 1 refl (omega arith) (omega arith) (omega arith)

release-Reports_example :
    Returns
      (λ t1. Reports t1 0 1 × Returns (λ t2. Reports t2 0 1) (acquire t1 1 64))
      (release two_threads 0 64)
release-Reports_example =
    release-Reports two_threads two_threads-EpochsAreReached two_threads-HasRoom 0 1 64
      (omega arith) (omega arith) (omega arith) refl

-- Thread 1 ticks afterwards.
abbrev other_ticks : WebTSan → WebTSan
other_ticks t = increment_thread t 1

reader_then_writer_reports_example :
    Returns
      (λ t2.
        Conflicts (access_cell 0 false (two_threads.thread_clocks 0)) 1 true (t2.thread_clocks 1))
      (mutex_post_lock (mutex_read_unlock two_threads 0 64) 1 64)
reader_then_writer_reports_example =
    reader_then_writer_reports two_threads 0 1 64 refl (omega arith) (omega arith) (omega arith)
      (omega arith) (omega arith)

step-EpochsAreReached_example :
    Returns (λ y. EpochsAreReached y.tsan) (step (with_tsan caller two_threads) (releases 1 64))
step-EpochsAreReached_example =
    step-EpochsAreReached (with_tsan caller two_threads) (releases 1 64)
      two_threads-EpochsAreReached (omega arith, refl, two_threads-HasRoom)

-- The detector after its first thread has been created, by none.
abbrev first_thread : WebTSan
first_thread = start_thread (enable web_tsan) (slot (enable web_tsan)) uint32_max

first_thread-step :
    step (with_tsan caller (enable web_tsan)) (creates uint32_max)
    ≡ ok (with_tsan caller first_thread)
unfolding step enable
first_thread-step = rw (thread_create-slot (enable web_tsan) uint32_max (omega arith)).0 refl

first_thread-Allowed : Allowed (enable web_tsan) (creates uint32_max)
unfolding enable
first_thread-Allowed = (λ i h. omega arith, (0, omega arith, refl))

Reach-EpochsAreReached_example : EpochsAreReached first_thread
Reach-EpochsAreReached_example =
    Reach-EpochsAreReached (after (creates uint32_max) start first_thread-Allowed first_thread-step)
