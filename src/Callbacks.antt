-- ===== src/Callbacks.antt =====
-- The table of callbacks that V8 calls, `WebTSanCallbacks` of
-- patches/v8/new-files/src/runtime/runtime-tsan.h, and the start, `InitializeWebTSan` of
-- patches/chromium/new-files/third_party/blink/renderer/core/tsan/web_tsan_init.cc.
pub mod Race
pub mod Start
use webtsan.Prelude.{
  ℕ, ◌-◌, ◌==◌, Bool, true, false, not, List, [], ◌∷◌, Option, none, some, if◌then◌else◌, take,
  uint32_max, Outcome, ok, ◌>>=◌,
}
use webtsan.Detector.{enable}
use webtsan.Threads.{thread_create}
use webtsan.Buffers.{remove_shadow, clear_shadow}
use webtsan.Caller.{
  Caller, enabled_with, with_tsan, get_current_tid, set_current_tid, push_suppress, pop_suppress,
}
use webtsan.Hooks.{
  on_sab_access, on_sab_range_unsuppressed, on_atomics_wait_complete, on_atomics_notify,
  on_atomics_store, on_atomics_load, on_atomics_rmw, on_mutex_create, on_mutex_destroy,
  on_mutex_pre_lock, on_mutex_post_lock, on_mutex_unlock, on_mutex_read_lock, on_mutex_read_unlock,
  on_pthread_create, on_pthread_join, on_pthread_detach,
}

-- A callback with two arguments, of a thread and an address, or of two threads.
abbrev pub Callback2 : Type 0
Callback2 = Caller → ℕ → ℕ → Outcome Caller

-- A pointer to a function is none while it is null. A flag is a uint32_t, as in the source.
-- `install_webtsan_globals` is apart, in Globals.
pub record WebTSanCallbacks : Type 0 where
  pub get_current_tid_cb : Option (Caller → ℕ)
  pub on_sab_access_cb : Option (Caller → ℕ → ℕ → ℕ → ℕ → ℕ → ℕ → Outcome Caller)
  pub on_atomics_load_cb : Option Callback2
  pub on_atomics_store_cb : Option Callback2
  pub on_atomics_rmw_cb : Option Callback2
  pub on_atomics_wait_complete_cb : Option Callback2
  pub on_atomics_notify_cb : Option Callback2
  pub remove_shadow_cb : Option (Caller → ℕ → Caller)
  pub wasm_access_cb : Option (Caller → ℕ → ℕ → ℕ → ℕ → ℕ → Outcome Caller)
  pub clear_shadow_cb : Option (Caller → ℕ → ℕ → ℕ → Caller)
  pub consume_race_cb : Option (Caller → ℕ → Caller × Option (List ℕ))
  pub push_suppress_cb : Option (Caller → ℕ → Caller)
  pub pop_suppress_cb : Option (Caller → ℕ → Caller)
  pub record_range_cb : Option (Caller → ℕ → ℕ → ℕ → ℕ → ℕ → ℕ → Outcome Caller)
  pub mutex_create_cb : Option (Caller → ℕ → Outcome Caller)
  pub mutex_destroy_cb : Option (Caller → ℕ → Outcome Caller)
  pub mutex_pre_lock_cb : Option Callback2
  pub mutex_post_lock_cb : Option Callback2
  pub mutex_unlock_cb : Option Callback2
  pub mutex_read_lock_cb : Option Callback2
  pub mutex_read_unlock_cb : Option Callback2
  pub pthread_create_cb : Option (Caller → ℕ → Outcome (Caller × ℕ))
  pub set_current_tid_cb : Option (Caller → ℕ → Caller)
  pub pthread_join_cb : Option Callback2
  pub pthread_detach_cb : Option (Caller → ℕ → Outcome Caller)

-- `g_callbacks` before it is set.
abbrev pub no_callbacks : WebTSanCallbacks
no_callbacks = record {
  get_current_tid_cb = none;
  on_sab_access_cb = none;
  on_atomics_load_cb = none;
  on_atomics_store_cb = none;
  on_atomics_rmw_cb = none;
  on_atomics_wait_complete_cb = none;
  on_atomics_notify_cb = none;
  remove_shadow_cb = none;
  wasm_access_cb = none;
  clear_shadow_cb = none;
  consume_race_cb = none;
  push_suppress_cb = none;
  pop_suppress_cb = none;
  record_range_cb = none;
  mutex_create_cb = none;
  mutex_destroy_cb = none;
  mutex_pre_lock_cb = none;
  mutex_post_lock_cb = none;
  mutex_unlock_cb = none;
  mutex_read_lock_cb = none;
  mutex_read_unlock_cb = none;
  pthread_create_cb = none;
  set_current_tid_cb = none;
  pthread_join_cb = none;
  pthread_detach_cb = none;
}

-- `is_write != 0`.
abbrev pub is_set : ℕ → Bool
is_set n = not (n == 0)

abbrev pub wasm_access : Caller → ℕ → ℕ → ℕ → ℕ → ℕ → Outcome Caller
wasm_access x bs len off sz is_store =
    let tid = get_current_tid x in
    if tid == uint32_max then ok x else on_sab_access x bs len off sz tid (is_set is_store)

-- The message, cut to the size of the buffer, where a race is pending.
unfoldable pub consume_race : Caller → ℕ → Caller × Option (List ℕ)
consume_race x buf_size = if not x.tls.race_detected then (x, none) else (
  record x { tls = record (x.tls) { race_detected = false; race_message = [] } },
  some (take (buf_size - 1) x.tls.race_message),
)

abbrev pub callbacks : WebTSanCallbacks
callbacks = record {
  get_current_tid_cb = some get_current_tid;
  on_sab_access_cb =
      some (λ x bs len off sz tid is_write. on_sab_access x bs len off sz tid (is_set is_write));
  on_atomics_load_cb = some on_atomics_load;
  on_atomics_store_cb = some on_atomics_store;
  on_atomics_rmw_cb = some on_atomics_rmw;
  on_atomics_wait_complete_cb = some on_atomics_wait_complete;
  on_atomics_notify_cb = some on_atomics_notify;
  remove_shadow_cb = some (λ x bs. with_tsan x (remove_shadow x.tsan bs));
  wasm_access_cb = some wasm_access;
  clear_shadow_cb = some (λ x bs offset size. with_tsan x (clear_shadow x.tsan bs offset size));
  consume_race_cb = some consume_race;
  push_suppress_cb = some (λ x _. push_suppress x);
  pop_suppress_cb = some (λ x _. pop_suppress x);
  record_range_cb = some (λ x bs len off sz tid is_write.
      on_sab_range_unsuppressed x bs len off sz tid (is_set is_write));
  mutex_create_cb = some on_mutex_create;
  mutex_destroy_cb = some on_mutex_destroy;
  mutex_pre_lock_cb = some on_mutex_pre_lock;
  mutex_post_lock_cb = some on_mutex_post_lock;
  mutex_unlock_cb = some on_mutex_unlock;
  mutex_read_lock_cb = some on_mutex_read_lock;
  mutex_read_unlock_cb = some on_mutex_read_unlock;
  pthread_create_cb = some on_pthread_create;
  set_current_tid_cb = some set_current_tid;
  pthread_join_cb = some on_pthread_join;
  pthread_detach_cb = some on_pthread_detach;
}

-- `InitializeWebTSan`: the table that V8 has and the state. The switch is one of the command line.
pub initialize_web_tsan : Bool → WebTSanCallbacks → Caller → Outcome (WebTSanCallbacks × Caller)
initialize_web_tsan has_switch registered x =
    if not has_switch
    then ok (registered, x)
    else (let x1 = with_tsan x (enable x.tsan) in
        thread_create x1.tsan uint32_max >>= λ (t, main_tid).
        let x2 = set_current_tid (with_tsan x1 t) main_tid in
        ok (callbacks, record x2 { events = enabled_with main_tid ∷ x2.events }))
