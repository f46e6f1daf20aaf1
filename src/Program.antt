-- ===== src/Program.antt =====
-- Runs of the program: the calls that reach the singleton of
-- patches/chromium/new-files/third_party/blink/renderer/core/tsan/web_tsan.cc, in any order, by any
-- thread. Each call runs under its locks, so a run is a sequence of calls.
pub mod Reach
use webtsan.Prelude.{ℕ, Bool, Outcome, ok, ◌>>=◌}
use webtsan.Detector.{
  WebTSan, enable, disable, reset, increment_suppressed_count, set_race_callback,
}
use webtsan.Threads.{
  thread_create, thread_finish, thread_destroy, thread_join, thread_detach, thread_absorb,
}
use webtsan.Sync.{
  acquire, release, mutex_create, mutex_destroy, mutex_pre_lock, mutex_post_lock, mutex_unlock,
  mutex_read_lock, mutex_read_unlock,
}
use webtsan.Edges.{send_edge, receive_edge}
use webtsan.Buffers.{remove_shadow, clear_shadow, get_or_create_shadow}
use webtsan.Caller.{Caller, with_tsan}
use webtsan.MemoryAccess.{memory_access}

-- The public methods of `WebTSan` that change its state, with their arguments.
pub data Call : Type 0 where
  creates : (parent : ℕ) → Call
  finishes destroys detaches : (tid : ℕ) → Call
  joins absorbs : (into from : ℕ) → Call
  acquires releases pre_locks post_locks unlocks read_locks read_unlocks : (tid addr : ℕ) → Call
  makes_mutex destroys_mutex : (addr : ℕ) → Call
  sends : (tid : ℕ) → Call
  receives : (tid edge : ℕ) → Call
  accesses : (store len offset size tid : ℕ) → Bool → Call
  clears : (store offset size : ℕ) → Call
  removes : (store : ℕ) → Call
  makes_shadow : (store len : ℕ) → Call
  enables disables resets suppresses : Call
  sets_callback : Bool → Call

abbrev on_tsan : Caller → Outcome WebTSan → Outcome Caller
on_tsan x m = m >>= λ t. ok (with_tsan x t)

unfoldable pub step : Caller → Call → Outcome Caller
step x (creates parent) = thread_create x.tsan parent >>= λ r. ok (with_tsan x r.0)
step x (finishes tid) = ok (with_tsan x (thread_finish x.tsan tid))
step x (destroys tid) = on_tsan x (thread_destroy x.tsan tid)
step x (detaches tid) = ok (with_tsan x (thread_detach x.tsan tid))
step x (joins into from) = on_tsan x (thread_join x.tsan into from)
step x (absorbs into from) = on_tsan x (thread_absorb x.tsan into from)
step x (acquires tid addr) = on_tsan x (acquire x.tsan tid addr)
step x (releases tid addr) = on_tsan x (release x.tsan tid addr)
step x (pre_locks tid addr) = ok (with_tsan x (mutex_pre_lock x.tsan tid addr))
step x (post_locks tid addr) = on_tsan x (mutex_post_lock x.tsan tid addr)
step x (unlocks tid addr) = on_tsan x (mutex_unlock x.tsan tid addr)
step x (read_locks tid addr) = on_tsan x (mutex_read_lock x.tsan tid addr)
step x (read_unlocks tid addr) = ok (with_tsan x (mutex_read_unlock x.tsan tid addr))
step x (makes_mutex addr) = ok (with_tsan x (mutex_create x.tsan addr))
step x (destroys_mutex addr) = ok (with_tsan x (mutex_destroy x.tsan addr))
step x (sends tid) = send_edge x.tsan tid >>= λ r. ok (with_tsan x r.0)
step x (receives tid edge) = on_tsan x (receive_edge x.tsan tid edge)
step x (accesses store len offset size tid w) = memory_access x store len offset size tid w
step x (clears store offset size) = ok (with_tsan x (clear_shadow x.tsan store offset size))
step x (removes store) = ok (with_tsan x (remove_shadow x.tsan store))
step x (makes_shadow store len) = ok (with_tsan x (get_or_create_shadow x.tsan store len).0)
step x enables = ok (with_tsan x (enable x.tsan))
step x disables = ok (with_tsan x (disable x.tsan))
step x resets = ok (with_tsan x (reset x.tsan))
step x suppresses = ok (with_tsan x (increment_suppressed_count x.tsan))
step x (sets_callback cb) = ok (with_tsan x (set_race_callback x.tsan cb))
