-- ===== src/Threads/Reuse.antt =====
-- A slot that is used again.
use webtsan.Prelude.{ℕ, ◌<◌, ◌≡◌, false, arith, Returns}
use webtsan.Clock.{k_max_threads}
use webtsan.Detector.{WebTSan}
use webtsan.Epochs.{own, EpochsAreReached, HasRoom}
use webtsan.Threads.{thread_create}
use webtsan.Threads.Slots.{slot, thread_create-slot}
use webtsan.Threads.Epochs.{own-started}

-- In a state whose epochs are reached, with room for one more, where a slot is free: the thread that is
-- created starts at an epoch beyond all those of the threads that had its slot before.
pub thread_create_reuse :
    (t : WebTSan) (p c : ℕ)
    → EpochsAreReached t
    → HasRoom t
    → c < k_max_threads
    → t.thread_alive c ≡ false
    → Returns (λ r. own t r.1 < own r.0 r.1) (thread_create t p)
thread_create_reuse t p c v room lt dead =
    let (e, small, free, _) = thread_create-slot t p v.next_small in
    let dead_slot = free c lt dead in
    rw e (
      omega (
        arith,
        own-started t v (slot t) p small dead_slot room,
        v.retired (slot t) small dead_slot,
      ))
