-- ===== src/Workers.antt =====
-- The calls that Blink makes for a worker and for a message, and V8 for a backing store, in
-- patches/chromium/modified-files/third_party/blink/renderer/core/workers,
-- patches/chromium/modified-files/third_party/blink/renderer/core/messaging/message_port.cc and
-- patches/v8/modified-files/src/objects/backing-store.cc. What else those functions do is not modelled.
pub mod Lifecycle
pub mod Buffers
use webtsan.Prelude.{
  ℕ, ◌==◌, ◌&&◌, Bool, not, none, some, if◌then◌else◌, uint32_max, Outcome, ok, ◌>>=◌,
}
use webtsan.Caller.{Caller, get_current_tid, set_current_tid}
use webtsan.Callbacks.{WebTSanCallbacks}
use webtsan.Hooks.{
  on_worker_create, on_worker_destroy, on_post_message_send, on_post_message_receive,
}

-- `InitializeOnWorkerThread`.
pub start_worker : Caller → Outcome Caller
start_worker x =
    if x.tsan.enabled then on_worker_create x >>= (λ (y, tid). ok (set_current_tid y tid)) else ok x

-- `PerformShutdownOnWorkerThread`.
pub stop_worker : Caller → Outcome Caller
stop_worker x =
    let tid = get_current_tid x in
    if tid == uint32_max
    then ok x
    else on_worker_destroy x tid >>= (λ y. ok (set_current_tid y uint32_max))

-- `postMessage` of a message port, of a dedicated worker and of its global scope: the state and the edge
-- that travels with the message.
unfoldable pub post_message : Caller → Outcome (Caller × ℕ)
post_message x = on_post_message_send x (get_current_tid x)

-- `DispatchMessageEvent` of a message port, and what a worker and its page receive.
abbrev pub dispatch_message : Caller → ℕ → Outcome Caller
dispatch_message x tsan_edge_id = on_post_message_receive x (get_current_tid x) tsan_edge_id

-- The destructor of a backing store, whose start is null at address 0.
unfoldable pub destroy_backing_store : Bool → WebTSanCallbacks → Caller → Bool → ℕ → Caller
destroy_backing_store wasm_tsan cbs x is_shared buffer_start =
    if wasm_tsan && (is_shared && not (buffer_start == 0))
    then elim (cbs.remove_shadow_cb) [ none ↦ x | some f ↦ f x buffer_start ]
    else x
