-- ===== src/Threads/Absorb.antt =====
-- `ThreadAbsorb`.
use webtsan.Prelude.{ℕ, ◌<◌, ◌≡◌, ◌≢◌, true, arith, ok}
use webtsan.Clock.{k_max_threads}
use webtsan.Detector.{WebTSan, join_thread}
use webtsan.Threads.{thread_absorb}

pub thread_absorb-ok :
    (t : WebTSan) (dst src : ℕ)
    → t.enabled ≡ true
    → dst < k_max_threads
    → src < k_max_threads
    → dst ≢ src
    → thread_absorb t dst src ≡ ok (join_thread t dst (t.thread_clocks src))
unfolding thread_absorb
thread_absorb-ok t dst src on hd hs ne = ground arith
