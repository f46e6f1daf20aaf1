-- ===== src/Globals.antt =====
-- The functions that a page can call, `__webTSan…` of
-- patches/chromium/new-files/third_party/blink/renderer/core/tsan/web_tsan_init.cc.
pub mod Tids
pub mod Install
use webtsan.Prelude.{
  ℕ, zero, suc, Bool, false, not, ◌&&◌, List, [], ◌∷◌, Option, none, some, ltb, ◌==◌, if◌then◌else◌,
  length, uint32_max, Outcome, ok, ◌>>=◌,
}
use webtsan.Threads.{thread_finish, thread_absorb}
use webtsan.Buffers.{clear_shadow}
use webtsan.Caller.{
  Caller, with_tsan, get_current_tid, set_current_tid, push_suppress, pop_suppress,
}
use webtsan.Hooks.{
  on_sab_range_unsuppressed, on_mutex_create, on_mutex_destroy, on_mutex_pre_lock,
  on_mutex_post_lock, on_mutex_unlock, on_mutex_read_lock, on_mutex_read_unlock, on_pthread_create,
  on_pthread_join, on_pthread_detach,
}
use webtsan.Console.{Realm, flush_pending_race}

-- What V8 makes of an argument: the data and the byte length of the backing store of a
-- SharedArrayBuffer, and the conversions, which may fail. The integer is the 64 bits of an int64_t.
pub record JsValue : Type 0 where
  pub shared_buffer : Option (ℕ × ℕ)
  pub uint32_value : Option ℕ
  pub integer_value : Option ℕ
  pub boolean_value : Bool

abbrev pub js_undefined : JsValue
js_undefined = record {
  shared_buffer = none;
  uint32_value = some 0;
  integer_value = some 0;
  boolean_value = false;
}

-- `info[i]`.
pub arg : List JsValue → ℕ → JsValue
arg [] i = js_undefined
arg (v ∷ vs) zero = v
arg (v ∷ vs) (suc i) = arg vs i

-- `FromMaybe`.
abbrev pub from_maybe : Option ℕ → ℕ → ℕ
from_maybe none d = d
from_maybe (some n) d = n

abbrev pub clear_shadow_callback : Caller → List JsValue → Outcome Caller
clear_shadow_callback x info =
    if ltb (length info) 3 then ok x else elim ((arg info 0).shared_buffer) [
      | none ↦ ok x
      | some (backing_store, _) ↦
          let offset = from_maybe ((arg info 1).uint32_value) 0 in
          let size = from_maybe ((arg info 2).uint32_value) 0 in
          if ltb 0 size
          then ok (with_tsan x (clear_shadow x.tsan backing_store offset size))
          else ok x
    ]

abbrev pub push_suppress_callback : Caller → List JsValue → Outcome Caller
push_suppress_callback x info = ok (push_suppress x)

abbrev pub pop_suppress_callback : Caller → List JsValue → Outcome Caller
pop_suppress_callback x info = ok (pop_suppress x)

pub record_range_callback : Realm → Caller → List JsValue → Outcome Caller
record_range_callback realm x info =
    if ltb (length info) 4 then ok x else elim ((arg info 0).shared_buffer) [
      | none ↦ ok x
      | some (backing_store, byte_length) ↦
          let offset = from_maybe ((arg info 1).uint32_value) 0 in
          let size = from_maybe ((arg info 2).uint32_value) 0 in
          let is_write = (arg info 3).boolean_value in
          if size == 0
          then ok x
          else if get_current_tid x == uint32_max
          then ok x
          else on_sab_range_unsuppressed x backing_store byte_length offset size (get_current_tid x)
              is_write
            >>= flush_pending_race realm
    ]

pub thread_finish_callback : Caller → List JsValue → Outcome Caller
thread_finish_callback x info =
    if get_current_tid x == uint32_max
    then ok x
    else ok (with_tsan x (thread_finish x.tsan (get_current_tid x)))

abbrev pub arg_to_addr : JsValue → ℕ
arg_to_addr v = from_maybe v.integer_value 0

abbrev pub mutex_create_callback : Caller → List JsValue → Outcome Caller
mutex_create_callback x info =
    if ltb (length info) 1 then ok x else on_mutex_create x (arg_to_addr (arg info 0))

abbrev pub mutex_destroy_callback : Caller → List JsValue → Outcome Caller
mutex_destroy_callback x info =
    if ltb (length info) 1 then ok x else on_mutex_destroy x (arg_to_addr (arg info 0))

pub mutex_pre_lock_callback : Caller → List JsValue → Outcome Caller
mutex_pre_lock_callback x info =
    if ltb (length info) 1
    then ok x
    else if get_current_tid x == uint32_max
    then ok x
    else on_mutex_pre_lock x (get_current_tid x) (arg_to_addr (arg info 0))

pub mutex_post_lock_callback : Caller → List JsValue → Outcome Caller
mutex_post_lock_callback x info =
    if ltb (length info) 1
    then ok x
    else if get_current_tid x == uint32_max
    then ok x
    else on_mutex_post_lock x (get_current_tid x) (arg_to_addr (arg info 0))

pub mutex_unlock_callback : Caller → List JsValue → Outcome Caller
mutex_unlock_callback x info =
    if ltb (length info) 1
    then ok x
    else if get_current_tid x == uint32_max
    then ok x
    else on_mutex_unlock x (get_current_tid x) (arg_to_addr (arg info 0))

pub mutex_read_lock_callback : Caller → List JsValue → Outcome Caller
mutex_read_lock_callback x info =
    if ltb (length info) 1
    then ok x
    else if get_current_tid x == uint32_max
    then ok x
    else on_mutex_read_lock x (get_current_tid x) (arg_to_addr (arg info 0))

pub mutex_read_unlock_callback : Caller → List JsValue → Outcome Caller
mutex_read_unlock_callback x info =
    if ltb (length info) 1
    then ok x
    else if get_current_tid x == uint32_max
    then ok x
    else on_mutex_read_unlock x (get_current_tid x) (arg_to_addr (arg info 0))

-- The id of the child is what the page is given.
abbrev pub pthread_create_callback : Caller → List JsValue → Outcome (Caller × ℕ)
pthread_create_callback x info = on_pthread_create x (get_current_tid x)

-- The new id takes over what the old one knew, where both are ids and they differ.
pub switch_tid : Caller → ℕ → ℕ → Outcome Caller
switch_tid x prev_tid new_tid =
    let absorbs =
      not (prev_tid == uint32_max) && (not (new_tid == uint32_max) && not (prev_tid == new_tid)) in
    (if absorbs then thread_absorb x.tsan new_tid prev_tid >>= (λ t. ok (with_tsan x t)) else ok x)
    >>= (λ y. ok (set_current_tid y new_tid))

pub set_current_tid_callback : Caller → List JsValue → Outcome Caller
set_current_tid_callback x info =
    if ltb (length info) 1
    then ok x
    else switch_tid x (get_current_tid x) (from_maybe (arg info 0).uint32_value uint32_max)

pub pthread_join_callback : Caller → List JsValue → Outcome Caller
pthread_join_callback x info =
    if ltb (length info) 1
    then ok x
    else if get_current_tid x == uint32_max
    then ok x
    else (let child = from_maybe ((arg info 0).uint32_value) uint32_max in
        if child == uint32_max then ok x else on_pthread_join x (get_current_tid x) child)

abbrev pub pthread_detach_callback : Caller → List JsValue → Outcome Caller
pthread_detach_callback x info =
    if ltb (length info) 1
    then ok x
    else (let child = from_maybe ((arg info 0).uint32_value) uint32_max in
        if child == uint32_max then ok x else on_pthread_detach x child)
