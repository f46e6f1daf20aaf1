-- ===== src/Runtime.antt =====
-- The runtime functions of V8 for accesses of typed arrays, in
-- patches/v8/new-files/src/runtime/runtime-tsan.cc.
pub mod Off
pub mod Race
use webtsan.Prelude.{
  ℕ, ◌+◌, ◌*◌, ◌==◌, Bool, not, List, ◌++◌, Option, none, some, if◌then◌else◌, uint32_max, u64,
  Outcome, ok, ◌>>=◌,
}
use webtsan.Caller.{Caller}
use webtsan.Callbacks.{WebTSanCallbacks, Callback2}
use webtsan.Console.{Realm}

-- What V8 knows of a typed array and its buffer.
pub record JsTypedArray : Type 0 where
  pub is_shared : Bool
  pub backing_store : ℕ
  pub byte_length : ℕ
  pub byte_offset : ℕ
  pub element_size : ℕ

-- The message and the stack go to console.error, where the page has one.
unfoldable pub report_to_console : Realm → Caller → List ℕ → Outcome Caller
report_to_console realm y msg =
    if not realm.has_console
    then ok y
    else if not realm.has_error
    then ok y
    else realm.call_error y (msg ++ realm.stack_trace)

-- What follows `consume_race`, from the state and the message where there is one.
pub throw_race : Realm → Caller × Option (List ℕ) → Outcome Caller
throw_race realm (y, none) = ok y
throw_race realm (y, some msg) = report_to_console realm y msg

-- The flag `--wasm-tsan`, the table of callbacks, and the page.
module _ (wasm_tsan : Bool) (cbs : WebTSanCallbacks) (realm : Realm) where
  pub get_tid : Caller → ℕ
  get_tid x = elim cbs.get_current_tid_cb [ none ↦ uint32_max | some f ↦ f x ]

  pub maybe_throw_race : Caller → Outcome Caller
  maybe_throw_race x = elim cbs.consume_race_cb [
    | none ↦ ok x
    | some consume ↦ throw_race realm (consume x 512)
  ]

  -- `Runtime_WebTSanRecordRead` and `Runtime_WebTSanRecordWrite` differ in the flag of a write.
  pub record_typed_access : Caller → JsTypedArray → ℕ → ℕ → Outcome Caller
  record_typed_access x array index is_write =
      if not wasm_tsan then ok x else elim cbs.on_sab_access_cb [
        | none ↦ ok x
        | some on_access ↦
            if not array.is_shared
            then ok x
            else if get_tid x == uint32_max
            then ok x
            else on_access x array.backing_store array.byte_length
                (u64 (array.byte_offset + index * array.element_size)) array.element_size
                (get_tid x) is_write
              >>= maybe_throw_race
      ]

  pub record_read : Caller → JsTypedArray → ℕ → Outcome Caller
  record_read x array index = record_typed_access x array index 0

  pub record_write : Caller → JsTypedArray → ℕ → Outcome Caller
  record_write x array index = record_typed_access x array index 1

  -- The body that the three atomic functions share, with the callback of each.
  pub atomic_access : Option Callback2 → Caller → JsTypedArray → ℕ → Outcome Caller
  atomic_access callback x array index = if not wasm_tsan then ok x else elim callback [
    | none ↦ ok x
    | some on_atomic ↦
        if not array.is_shared
        then ok x
        else if get_tid x == uint32_max
        then ok x
        else on_atomic x (get_tid x)
            (u64 (array.backing_store + array.byte_offset + index * array.element_size))
          >>= maybe_throw_race
  ]

  pub atomics_load : Caller → JsTypedArray → ℕ → Outcome Caller
  atomics_load x array index = atomic_access cbs.on_atomics_load_cb x array index

  pub atomics_store : Caller → JsTypedArray → ℕ → Outcome Caller
  atomics_store x array index = atomic_access cbs.on_atomics_store_cb x array index

  pub atomics_rmw : Caller → JsTypedArray → ℕ → Outcome Caller
  atomics_rmw x array index = atomic_access cbs.on_atomics_rmw_cb x array index
