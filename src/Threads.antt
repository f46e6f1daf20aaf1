-- ===== src/Threads.antt =====
-- The thread lifecycle of `WebTSan`: `ThreadCreate`, `ThreadFinish`, `ThreadDestroy`, `ThreadJoin`,
-- `ThreadDetach` and `ThreadAbsorb` of
-- patches/chromium/new-files/third_party/blink/renderer/core/tsan/web_tsan.cc.
pub mod Slots
pub mod Create
pub mod Finish
pub mod Epochs
pub mod Ending
pub mod Absorb
pub mod Reuse
pub mod Destroy
use webtsan.Prelude.{
  ℕ, zero, suc, ◌+◌, ◌%◌, true, false, not, ◌&&◌, ◌||◌, ltb, leb, ◌==◌, if◌then◌else◌, update,
  uint32_max, Outcome, ok, check_failed,
}
use webtsan.Prelude.{Bool}
use webtsan.Clock.{VClock, k_max_threads, zero_clock, join}
use webtsan.Detector.{WebTSan, at_index, join_thread, increment_thread}

-- The search of `ThreadCreate` for a free slot, from round `i` with the rounds left: `tid` where all
-- the slots are alive.
pub find_slot : ℕ → ℕ → WebTSan → ℕ → ℕ
find_slot zero i t tid = tid
find_slot (suc n) i t tid =
    let candidate = (t.next_tid + i) % k_max_threads in
    if not (t.thread_alive candidate) then candidate else find_slot n (suc i) t tid

-- The clock that a new thread starts from.
abbrev pub inherited : WebTSan → ℕ → VClock
inherited t parent_tid =
    if not (parent_tid == uint32_max) && (ltb parent_tid k_max_threads && t.thread_alive parent_tid)
    then t.thread_clocks parent_tid
    else zero_clock

-- The rest of `ThreadCreate`, once the slot is chosen.
pub start_thread : WebTSan → ℕ → ℕ → WebTSan
start_thread t tid parent_tid =
    let t1 = record t { thread_alive = update t.thread_alive tid true } in
    let t2 = record t1 { thread_clocks = update t1.thread_clocks tid (inherited t1 parent_tid) } in
    let t3 = increment_thread (join_thread t2 tid t2.orphan_clock) tid in
    record t3 { next_tid = (tid + 1) % k_max_threads }

pub thread_create : WebTSan → ℕ → Outcome (WebTSan × ℕ)
thread_create t parent_tid =
    let tid = find_slot k_max_threads 0 t t.next_tid in
    if ltb tid k_max_threads then ok (start_thread t tid parent_tid, tid) else check_failed

-- The broadcast loop of `ThreadFinish` on `thread_clocks_`, from `i`, with the rounds left.
pub broadcast : ℕ → ℕ → (ℕ → Bool) → ℕ → (ℕ → VClock) → ℕ → VClock
broadcast zero i alive tid clocks = clocks
broadcast (suc n) i alive tid clocks =
    broadcast n (suc i) alive tid (
      if (i == tid) || not (alive i)
      then clocks
      else update clocks i (join (clocks i) (clocks tid)))

pub thread_finish : WebTSan → ℕ → WebTSan
thread_finish t tid = if not t.enabled then t else if leb k_max_threads tid then t else record t {
  orphan_clock = join t.orphan_clock (t.thread_clocks tid);
  thread_clocks = broadcast k_max_threads 0 t.thread_alive tid t.thread_clocks;
}

pub thread_destroy : WebTSan → ℕ → Outcome WebTSan
thread_destroy t tid =
    if t.enabled
    then (let t' =
          if ltb tid k_max_threads && t.thread_alive tid
          then record t { orphan_clock = join t.orphan_clock (t.thread_clocks tid) }
          else t in
        at_index tid (ok (record t' { thread_alive = update t'.thread_alive tid false })))
    else ok (
        if ltb tid k_max_threads
        then record t { thread_alive = update t.thread_alive tid false }
        else t)

pub thread_join : WebTSan → ℕ → ℕ → Outcome WebTSan
thread_join t joiner_tid child_tid =
    if not t.enabled
    then ok t
    else if leb k_max_threads joiner_tid || leb k_max_threads child_tid
    then ok t
    else at_index joiner_tid (
        at_index child_tid (
          let t' = join_thread t joiner_tid (t.thread_clocks child_tid) in
          ok (record t' { thread_alive = update t'.thread_alive child_tid false })))

-- Both of the guards return, and so does the end of the body.
unfoldable pub thread_detach : WebTSan → ℕ → WebTSan
thread_detach t child_tid =
    if not t.enabled then t else if leb k_max_threads child_tid then t else t

pub thread_absorb : WebTSan → ℕ → ℕ → Outcome WebTSan
thread_absorb t dst_tid src_tid =
    if not t.enabled
    then ok t
    else if leb k_max_threads dst_tid || leb k_max_threads src_tid
    then ok t
    else if dst_tid == src_tid
    then ok t
    else at_index dst_tid (at_index src_tid (ok (join_thread t dst_tid (t.thread_clocks src_tid))))
