-- ===== src/Hooks.antt =====
-- The hooks of
-- patches/chromium/new-files/third_party/blink/renderer/core/tsan/web_tsan_hooks.h, which forward to
-- the singleton while it is enabled.
pub mod Disabled
use webtsan.Prelude.{ℕ, Bool, not, if◌then◌else◌, uint32_max, Outcome, ok, ◌>>=◌}
use webtsan.Detector.{WebTSan, increment_suppressed_count}
use webtsan.Threads.{thread_create, thread_destroy, thread_join, thread_detach}
use webtsan.Sync.{
  acquire, release, mutex_create, mutex_destroy, mutex_pre_lock, mutex_post_lock, mutex_unlock,
  mutex_read_lock, mutex_read_unlock,
}
use webtsan.Edges.{send_edge, receive_edge}
use webtsan.Caller.{Caller, with_tsan, is_suppressed}
use webtsan.MemoryAccess.{memory_access}

-- `if (WebTSan::Get().IsEnabled()) …`, for a method that changes the singleton alone.
abbrev pub if_enabled : Caller → Outcome WebTSan → Outcome Caller
if_enabled x m = if x.tsan.enabled then m >>= (λ t. ok (with_tsan x t)) else ok x

pub on_sab_access : Caller → ℕ → ℕ → ℕ → ℕ → ℕ → Bool → Outcome Caller
on_sab_access x backing_store sab_byte_length offset size tid is_write =
    if not x.tsan.enabled
    then ok x
    else if is_suppressed x
    then ok (with_tsan x (increment_suppressed_count x.tsan))
    else if x.tls.in_race_report
    then ok x
    else memory_access x backing_store sab_byte_length offset size tid is_write

pub on_sab_range_unsuppressed : Caller → ℕ → ℕ → ℕ → ℕ → ℕ → Bool → Outcome Caller
on_sab_range_unsuppressed x backing_store sab_byte_length offset size tid is_write =
    if not x.tsan.enabled
    then ok x
    else memory_access x backing_store sab_byte_length offset size tid is_write

pub on_atomics_wait_complete : Caller → ℕ → ℕ → Outcome Caller
on_atomics_wait_complete x tid wait_location = if_enabled x (acquire x.tsan tid wait_location)

pub on_atomics_notify : Caller → ℕ → ℕ → Outcome Caller
on_atomics_notify x tid wait_location = if_enabled x (release x.tsan tid wait_location)

pub on_atomics_store : Caller → ℕ → ℕ → Outcome Caller
on_atomics_store x tid location = if_enabled x (release x.tsan tid location)

pub on_atomics_load : Caller → ℕ → ℕ → Outcome Caller
on_atomics_load x tid location = if_enabled x (acquire x.tsan tid location)

pub on_atomics_rmw : Caller → ℕ → ℕ → Outcome Caller
on_atomics_rmw x tid location =
    if_enabled x (acquire x.tsan tid location >>= λ t. release t tid location)

-- The id of the edge, 0 while disabled.
unfoldable pub on_post_message_send : Caller → ℕ → Outcome (Caller × ℕ)
on_post_message_send x sender_tid =
    if x.tsan.enabled
    then send_edge x.tsan sender_tid >>= (λ r. ok (with_tsan x r.0, r.1))
    else ok (x, 0)

pub on_post_message_receive : Caller → ℕ → ℕ → Outcome Caller
on_post_message_receive x receiver_tid edge_id =
    if_enabled x (receive_edge x.tsan receiver_tid edge_id)

pub on_mutex_create : Caller → ℕ → Outcome Caller
on_mutex_create x addr = if_enabled x (ok (mutex_create x.tsan addr))

pub on_mutex_destroy : Caller → ℕ → Outcome Caller
on_mutex_destroy x addr = if_enabled x (ok (mutex_destroy x.tsan addr))

pub on_mutex_pre_lock : Caller → ℕ → ℕ → Outcome Caller
on_mutex_pre_lock x tid addr = if_enabled x (ok (mutex_pre_lock x.tsan tid addr))

pub on_mutex_post_lock : Caller → ℕ → ℕ → Outcome Caller
on_mutex_post_lock x tid addr = if_enabled x (mutex_post_lock x.tsan tid addr)

pub on_mutex_unlock : Caller → ℕ → ℕ → Outcome Caller
on_mutex_unlock x tid addr = if_enabled x (mutex_unlock x.tsan tid addr)

pub on_mutex_read_lock : Caller → ℕ → ℕ → Outcome Caller
on_mutex_read_lock x tid addr = if_enabled x (mutex_read_lock x.tsan tid addr)

pub on_mutex_read_unlock : Caller → ℕ → ℕ → Outcome Caller
on_mutex_read_unlock x tid addr = if_enabled x (ok (mutex_read_unlock x.tsan tid addr))

abbrev pub on_pthread_create : Caller → ℕ → Outcome (Caller × ℕ)
on_pthread_create x parent_tid = thread_create x.tsan parent_tid >>= λ r. ok (with_tsan x r.0, r.1)

pub on_pthread_join : Caller → ℕ → ℕ → Outcome Caller
on_pthread_join x joiner_tid child_tid = if_enabled x (thread_join x.tsan joiner_tid child_tid)

pub on_pthread_detach : Caller → ℕ → Outcome Caller
on_pthread_detach x child_tid = if_enabled x (ok (thread_detach x.tsan child_tid))

-- A worker has no parent.
unfoldable pub on_worker_create : Caller → Outcome (Caller × ℕ)
on_worker_create x = thread_create x.tsan uint32_max >>= λ r. ok (with_tsan x r.0, r.1)

unfoldable pub on_worker_destroy : Caller → ℕ → Outcome Caller
on_worker_destroy x tid = thread_destroy x.tsan tid >>= λ t. ok (with_tsan x t)
