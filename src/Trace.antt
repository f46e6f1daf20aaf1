-- ===== src/Trace.antt =====
-- `Runtime_WasmTraceMemory` of patches/v8/modified-files/src/runtime/runtime-test-wasm.cc, which compiled
-- WebAssembly code calls at its memory accesses: the part for WebTSan. The trace that is printed
-- under another flag is not modelled.
pub mod Guard
use webtsan.Prelude.{
  ℕ, ◌+◌, ◌==◌, ◌||◌, Bool, true, false, not, List, Option, none, some, if◌then◌else◌, uint32_max,
  u64, Outcome, ok, ◌>>=◌,
}
use webtsan.Caller.{Caller}
use webtsan.Callbacks.{WebTSanCallbacks}
use webtsan.Console.{Realm}
use webtsan.Runtime.{get_tid, report_to_console}

-- `MemoryTracingInfo`, with the size of its representation.
pub record MemoryTracingInfo : Type 0 where
  pub offset : ℕ
  pub mem_rep_size : ℕ
  pub is_store : Bool
  pub is_atomic : Bool

-- What the frame of the caller knows: the backing store of the memory, which is null at address 0, and
-- whether it has a native context.
pub record WasmFrame : Type 0 where
  pub buffer_start : ℕ
  pub byte_length : ℕ
  pub has_native_context : Bool

abbrev pub set_in_trace_report : Caller → Bool → Caller
set_in_trace_report x b = record x { tls = record (x.tls) { in_trace_report = b } }

-- The report to the console, under the guard.
pub trace_race : Realm → Caller × Option (List ℕ) → Outcome Caller
trace_race realm (y, none) = ok y
trace_race realm (y, some msg) =
    report_to_console realm (set_in_trace_report y true) msg
    >>= (λ z. ok (set_in_trace_report z false))

-- The flag `--wasm-tsan`, the table of callbacks, of which `install_webtsan_globals` is apart, and the page.
module _ (wasm_tsan : Bool) (cbs : WebTSanCallbacks) (realm : Realm)
    (install_webtsan_globals : Option (Caller → Outcome Caller)) where
  -- The functions of a page are installed at the first access of the thread.
  pub install_once : Caller → WasmFrame → Outcome Caller
  install_once x frame = if x.tls.globals_installed then ok x else elim install_webtsan_globals [
    | none ↦ ok x
    | some install ↦
        if frame.has_native_context
        then install (record x { tls = record (x.tls) { globals_installed = true } })
        else ok x
  ]

  abbrev pub trace_atomic : Caller → WasmFrame → MemoryTracingInfo → Outcome Caller
  trace_atomic x frame info =
      let location = u64 (frame.buffer_start + info.offset) in
      let tid = get_tid wasm_tsan cbs realm x in
      if tid == uint32_max
      then ok x
      else if not info.is_store
      then elim (cbs.on_atomics_load_cb) [ none ↦ ok x | some f ↦ f x tid location ]
      else elim (cbs.on_atomics_rmw_cb) [ none ↦ ok x | some f ↦ f x tid location ]

  abbrev pub trace_pending : Caller → Outcome Caller
  trace_pending x = elim (cbs.consume_race_cb) [
    | none ↦ ok x
    | some consume ↦ trace_race realm (consume x 512)
  ]

  pub trace_access : Caller → WasmFrame → MemoryTracingInfo → Outcome Caller
  trace_access x frame info = elim (cbs.wasm_access_cb) [
    | none ↦ ok x
    | some access ↦
        if x.tls.in_trace_report
        then ok x
        else access x frame.buffer_start frame.byte_length info.offset info.mem_rep_size
            (if info.is_store then 1 else 0)
          >>= trace_pending
  ]

  pub trace_memory : Caller → WasmFrame → MemoryTracingInfo → Outcome Caller
  trace_memory x frame info =
      if not wasm_tsan || (frame.buffer_start == 0)
      then ok x
      else install_once x frame
        >>= (λ y. if info.is_atomic then trace_atomic y frame info else trace_access y frame info)
