-- ===== src/TestData.antt =====
-- A detector with two live threads, for the witnesses: thread 0 is at epoch 3 and thread 1 at epoch 4.
use webtsan.Prelude.{true, arith, ltb, ◌==◌, if◌then◌else◌}
use webtsan.Clock.{VClock, zero_clock}
use webtsan.Detector.{WebTSan, web_tsan}
use webtsan.Epochs.{EpochsAreReached, HasRoom}

abbrev pub main_clock : VClock
main_clock = record { clk = λ i. if i == 0 then 3 else if i == 1 then 1 else 0 }

abbrev pub worker_clock : VClock
worker_clock = record { clk = λ i. if i == 0 then 2 else if i == 1 then 4 else 0 }

abbrev pub two_threads : WebTSan
two_threads = record web_tsan {
  enabled = true;
  thread_clocks = λ u. if u == 0 then main_clock else if u == 1 then worker_clock else zero_clock;
  thread_alive = λ u. ltb u 2;
  next_tid = 2;
}

pub two_threads-EpochsAreReached : EpochsAreReached two_threads
two_threads-EpochsAreReached = record {
  next_small = omega arith;
  threads = λ u lt i lt'. ground arith;
  orphan = λ i lt. ground arith;
  syncs = λ a c e. cc;
  edges = λ e c q. cc;
  retired = λ i lt e. ground arith;
  sizes = λ s b e. cc;
  cells = λ s b e. cc;
}

pub two_threads-HasRoom : HasRoom two_threads
two_threads-HasRoom i lt = ground arith
