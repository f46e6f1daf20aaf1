-- ===== src/Examples/Calls.antt =====
-- Instances of the theorems on the hooks while the detector is disabled, and on bulk operations.
use webtsan.Prelude.{◌≡◌, refl, true, some, arith}
use webtsan.Caller.{caller}
use webtsan.Hooks.{on_sab_range_unsuppressed}
use webtsan.Callbacks.{WebTSanCallbacks, no_callbacks}
use webtsan.Bulk.{WasmMemory, RecordRange, maybe_report_bulk_range}
use webtsan.Bulk.Samples.{record_all, samples, maybe_report_bulk_range-record_all}

-- A thread with id 1, and accesses that are counted.
abbrev record_range : RecordRange
record_range x bs len off sz tid w = on_sab_range_unsuppressed x bs len off sz tid true

abbrev table : WebTSanCallbacks
table = record no_callbacks {
  get_current_tid_cb = some (λ _. 1);
  record_range_cb = some record_range;
}

abbrev memory : WasmMemory
memory = record {
  is_shared = true;
  buffer_start = 4096;
  byte_length = 65536;
  memory_size = 65536;
  bytes = λ _. 0;
}

maybe_report_bulk_range-record_all_example :
    maybe_report_bulk_range true table caller memory 16 100 true
    ≡ record_all record_range memory 1 true (samples 16 100) caller
maybe_report_bulk_range-record_all_example =
    maybe_report_bulk_range-record_all table record_range (λ _. 1) caller memory 16 100 true refl
      refl refl (omega arith) (omega arith) (omega arith)
