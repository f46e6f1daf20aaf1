-- ===== src/Sync.antt =====
-- Acquire and release at an address, and the mutex calls, of
-- patches/chromium/new-files/third_party/blink/renderer/core/tsan/web_tsan.cc.
pub mod Epochs
pub mod Results
use webtsan.Prelude.{
  ℕ, not, ◌||◌, none, some, leb, if◌then◌else◌, insert, erase, find_or, Outcome, ok,
}
use webtsan.Clock.{k_max_threads, zero_clock, join}
use webtsan.Detector.{WebTSan, at_index, join_thread, increment_thread}

-- `Acquire`.
pub acquire : WebTSan → ℕ → ℕ → Outcome WebTSan
acquire t tid sync_addr = if not t.enabled then ok t else elim (t.sync_clocks sync_addr) [
  | none ↦ ok t
  | some c ↦ at_index tid (ok (join_thread t tid c))
]

-- `sync_clocks_[addr].Join(thread_clocks_[tid]); thread_clocks_[tid].Increment(tid);`
abbrev pub publish : WebTSan → ℕ → ℕ → WebTSan
publish t tid addr =
    increment_thread
      (record t {
        sync_clocks =
            insert t.sync_clocks addr
              (join (find_or t.sync_clocks addr zero_clock) (t.thread_clocks tid));
      })
      tid

pub release : WebTSan → ℕ → ℕ → Outcome WebTSan
release t tid sync_addr =
    if not t.enabled then ok t else at_index tid (ok (publish t tid sync_addr))

pub mutex_create : WebTSan → ℕ → WebTSan
mutex_create t addr =
    if not t.enabled then t else record t { sync_clocks = erase t.sync_clocks addr }

pub mutex_destroy : WebTSan → ℕ → WebTSan
mutex_destroy t addr =
    if not t.enabled then t else record t { sync_clocks = erase t.sync_clocks addr }

unfoldable pub mutex_pre_lock : WebTSan → ℕ → ℕ → WebTSan
mutex_pre_lock t tid addr = t

pub mutex_post_lock : WebTSan → ℕ → ℕ → Outcome WebTSan
mutex_post_lock t tid addr =
    if not t.enabled || leb k_max_threads tid then ok t else elim (t.sync_clocks addr) [
      | none ↦ ok t
      | some c ↦ at_index tid (ok (join_thread t tid c))
    ]

pub mutex_unlock : WebTSan → ℕ → ℕ → Outcome WebTSan
mutex_unlock t tid addr =
    if not t.enabled || leb k_max_threads tid then ok t else at_index tid (ok (publish t tid addr))

pub mutex_read_lock : WebTSan → ℕ → ℕ → Outcome WebTSan
mutex_read_lock t tid addr =
    if not t.enabled || leb k_max_threads tid then ok t else elim (t.sync_clocks addr) [
      | none ↦ ok t
      | some c ↦ at_index tid (ok (join_thread t tid c))
    ]

unfoldable pub mutex_read_unlock : WebTSan → ℕ → ℕ → WebTSan
mutex_read_unlock t tid addr = t
