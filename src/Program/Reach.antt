-- ===== src/Program/Reach.antt =====
-- The states that a run reaches, and what holds in each of them.
use webtsan.Prelude.{
  ℕ, ◌+◌, ◌^◌, ◌<◌, ◌≤◌, ◌≡◌, true, false, Outcome, ok, undefined, check_failed, ◌>>=◌, Returns,
  if-cases, leb, not, subst,
}
use webtsan.Clock.{k_max_threads, get}
use webtsan.Detector.{
  WebTSan, web_tsan, enable, disable, increment_suppressed_count, set_race_callback,
}
use webtsan.Epochs.Reset.{reset-EpochsAreReached}
use webtsan.Epochs.{
  own, EpochsAreReached, HasRoom, web_tsan-EpochsAreReached, EpochsAreReached-flags,
}
use webtsan.Threads.{thread_detach}
use webtsan.Threads.Epochs.{thread_create-EpochsAreReached}
use webtsan.Threads.Ending.{
  thread_finish-EpochsAreReached, thread_destroy-EpochsAreReached, thread_join-EpochsAreReached,
  thread_absorb-EpochsAreReached,
}
use webtsan.Sync.{mutex_pre_lock, mutex_read_unlock}
use webtsan.Sync.Epochs.{
  acquire-EpochsAreReached, release-EpochsAreReached, mutex_post_lock-EpochsAreReached,
  mutex_unlock-EpochsAreReached, mutex_read_lock-EpochsAreReached, mutex_create-EpochsAreReached,
  mutex_destroy-EpochsAreReached,
}
use webtsan.Edges.Epochs.{send_edge-EpochsAreReached, receive_edge-EpochsAreReached}
use webtsan.Buffers.Epochs.{
  remove_shadow-EpochsAreReached, clear_shadow-EpochsAreReached,
  get_or_create_shadow-EpochsAreReached,
}
use webtsan.Caller.{Caller, caller, with_tsan}
use webtsan.MemoryAccess.Epochs.{memory_access-EpochsAreReached}
use webtsan.Program.{
  Call, creates, finishes, destroys, detaches, joins, absorbs, acquires, releases, pre_locks,
  post_locks, unlocks, read_locks, read_unlocks, makes_mutex, destroys_mutex, sends, receives,
  accesses, clears, removes, makes_shadow, enables, disables, resets, suppresses, sets_callback,
  step, on_tsan,
}

-- The calls that are made as they are meant to be: by threads with a slot, with a free slot for a new
-- thread and room for its epoch, ticks by live threads with room for one more epoch, a join of a thread
-- that has left its epoch in the orphan clock, and byte ranges of buffers below 2^63 bytes.
abbrev pub Allowed : WebTSan → Call → Type 0
Allowed t (creates parent) =
    HasRoom t × ((c : ℕ) × (c < k_max_threads) × (t.thread_alive c ≡ false))
Allowed t (finishes tid) = tid < k_max_threads
Allowed t (destroys tid) = (t.enabled ≡ true) × (tid < k_max_threads)
Allowed t (joins into from) =
    (into < k_max_threads) × (from < k_max_threads) × (own t from ≤ get t.orphan_clock from)
Allowed t (absorbs into from) = (into < k_max_threads) × (from < k_max_threads)
Allowed t (releases tid addr) = (tid < k_max_threads) × (t.thread_alive tid ≡ true) × HasRoom t
Allowed t (unlocks tid addr) = (tid < k_max_threads) × (t.thread_alive tid ≡ true) × HasRoom t
Allowed t (acquires tid addr) = tid < k_max_threads
Allowed t (post_locks tid addr) = tid < k_max_threads
Allowed t (read_locks tid addr) = tid < k_max_threads
Allowed t (sends tid) = tid < k_max_threads
Allowed t (receives tid edge) = tid < k_max_threads
Allowed t (accesses store len offset size tid w) =
    (tid < k_max_threads) × (offset < 2 ^ 64) × (len < 2 ^ 63)
Allowed t (clears store offset size) = offset + size < 2 ^ 64
Allowed t (makes_shadow store len) = len < 2 ^ 63
Allowed t _ = Unit {0}

-- A run from the enabled detector, of allowed calls that return.
pub data Reach : Caller → Type 0 where
  start : Reach (with_tsan caller (enable web_tsan))
  after : {x y : Caller} (c : Call) → Reach x → Allowed x.tsan c → step x c ≡ ok y → Reach y

on_tsan-EpochsAreReached :
    (x : Caller) (m : Outcome WebTSan)
    → Returns EpochsAreReached m
    → Returns (λ y. EpochsAreReached y.tsan) (on_tsan x m)
on_tsan-EpochsAreReached x (ok t) v = v
on_tsan-EpochsAreReached x undefined v = v
on_tsan-EpochsAreReached x check_failed v = v

on_pair-EpochsAreReached :
    (x : Caller) (m : Outcome (WebTSan × ℕ))
    → Returns (λ r. EpochsAreReached r.0) m
    → Returns (λ y. EpochsAreReached y.tsan) (m >>= λ r. ok (with_tsan x r.0))
on_pair-EpochsAreReached x (ok r) v = v
on_pair-EpochsAreReached x undefined v = v
on_pair-EpochsAreReached x check_failed v = v

thread_detach-EpochsAreReached :
    (t : WebTSan) (tid : ℕ) → EpochsAreReached t → EpochsAreReached (thread_detach t tid)
unfolding thread_detach
thread_detach-EpochsAreReached t tid v =
    if-cases EpochsAreReached (not t.enabled) (λ _. v)
      (λ _. if-cases EpochsAreReached (leb k_max_threads tid) (λ _. v) (λ _. v))

-- Every allowed call returns, whatever its outcome could be otherwise (an index out of bounds, a failed
-- CHECK), and keeps the epochs reached: no clock of a thread, of an address, of a message, nor the
-- orphan clock, and no shadow cell, holds an epoch that its thread has not reached.
pub step-EpochsAreReached :
    (x : Caller) (c : Call)
    → EpochsAreReached x.tsan
    → Allowed x.tsan c
    → Returns (λ y. EpochsAreReached y.tsan) (step x c)
unfolding step mutex_pre_lock mutex_read_unlock enable disable increment_suppressed_count
    set_race_callback
step-EpochsAreReached x (creates p) v (room, (c, lt, dead)) =
    on_pair-EpochsAreReached x _ (thread_create-EpochsAreReached x.tsan v p c room lt dead)
step-EpochsAreReached x (finishes tid) v h = thread_finish-EpochsAreReached x.tsan v tid h
step-EpochsAreReached x (destroys tid) v (on, h) =
    on_tsan-EpochsAreReached x _ (thread_destroy-EpochsAreReached x.tsan v tid h on)
step-EpochsAreReached x (detaches tid) v h = thread_detach-EpochsAreReached x.tsan tid v
step-EpochsAreReached x (joins into from) v (hi, hf, left) =
    on_tsan-EpochsAreReached x _ (thread_join-EpochsAreReached x.tsan v into from hi hf left)
step-EpochsAreReached x (absorbs into from) v (hi, hf) =
    on_tsan-EpochsAreReached x _ (thread_absorb-EpochsAreReached x.tsan v into from hi hf)
step-EpochsAreReached x (acquires tid addr) v h =
    on_tsan-EpochsAreReached x _ (acquire-EpochsAreReached x.tsan tid addr v h)
step-EpochsAreReached x (releases tid addr) v (h, alive, room) =
    on_tsan-EpochsAreReached x _ (release-EpochsAreReached x.tsan tid addr v h room alive)
step-EpochsAreReached x (pre_locks tid addr) v h = v
step-EpochsAreReached x (post_locks tid addr) v h =
    on_tsan-EpochsAreReached x _ (mutex_post_lock-EpochsAreReached x.tsan tid addr v h)
step-EpochsAreReached x (unlocks tid addr) v (h, alive, room) =
    on_tsan-EpochsAreReached x _ (mutex_unlock-EpochsAreReached x.tsan tid addr v h room alive)
step-EpochsAreReached x (read_locks tid addr) v h =
    on_tsan-EpochsAreReached x _ (mutex_read_lock-EpochsAreReached x.tsan tid addr v h)
step-EpochsAreReached x (read_unlocks tid addr) v h = v
step-EpochsAreReached x (makes_mutex addr) v h = mutex_create-EpochsAreReached x.tsan addr v
step-EpochsAreReached x (destroys_mutex addr) v h = mutex_destroy-EpochsAreReached x.tsan addr v
step-EpochsAreReached x (sends tid) v h =
    on_pair-EpochsAreReached x _ (send_edge-EpochsAreReached x.tsan tid v h)
step-EpochsAreReached x (receives tid edge) v h =
    on_tsan-EpochsAreReached x _ (receive_edge-EpochsAreReached x.tsan tid v h edge)
step-EpochsAreReached x (accesses s len offset size tid w) v (h, fits, small) =
    memory_access-EpochsAreReached s offset size tid w h fits x len small v
step-EpochsAreReached x (clears s offset size) v fits =
    clear_shadow-EpochsAreReached x.tsan v s offset size fits
step-EpochsAreReached x (removes s) v h = remove_shadow-EpochsAreReached x.tsan v s
step-EpochsAreReached x (makes_shadow s len) v small =
    (get_or_create_shadow-EpochsAreReached x.tsan v s len small).0
step-EpochsAreReached x enables v h = EpochsAreReached-flags x.tsan _ _ _ v
step-EpochsAreReached x disables v h = EpochsAreReached-flags x.tsan _ _ _ v
step-EpochsAreReached x resets v h = reset-EpochsAreReached x.tsan
step-EpochsAreReached x suppresses v h = EpochsAreReached-flags x.tsan _ _ _ v
step-EpochsAreReached x (sets_callback cb) v h = EpochsAreReached-flags x.tsan _ _ _ v

-- In every state that a run of allowed calls reaches from the enabled detector, no clock of a thread, of an
-- address, of a message, nor the orphan clock, and no shadow cell, holds an epoch that its thread
-- has not reached.
pub Reach-EpochsAreReached : {x : Caller} → Reach x → EpochsAreReached x.tsan
unfolding enable
Reach-EpochsAreReached start = EpochsAreReached-flags web_tsan _ _ _ web_tsan-EpochsAreReached
Reach-EpochsAreReached (after {x} {y} c r h e) =
    subst (Returns (λ z. EpochsAreReached z.tsan)) e
      (step-EpochsAreReached x c (Reach-EpochsAreReached r) h)
