-- ===== src/Examples/Page.antt =====
-- Instances of the theorems on the functions of a page, the console, and the start.
use webtsan.Prelude.{◌≡◌, refl, true, false, some, arith, [], ◌∷◌, ◌++◌, ok, uint32_max, Returns}
use webtsan.Shadow.{RaceReport}
use webtsan.Report.{message}
use webtsan.Caller.{Caller, caller, with_tsan, get_current_tid, thread_locals, console_error}
use webtsan.Console.{Realm, clear_race}
use webtsan.Callbacks.{callbacks}
use webtsan.Globals.{JsValue, js_undefined, set_current_tid_callback}
use webtsan.Globals.Tids.{TakesOver, set_current_tid_callback-TakesOver}
use webtsan.Runtime.{JsTypedArray, maybe_throw_race}
use webtsan.Runtime.Race.{maybe_throw_race_once}
use webtsan.Trace.{WasmFrame, MemoryTracingInfo}
use webtsan.TestData.{two_threads}

-- A page with a console that shows the message.
abbrev realm : Realm
realm = record {
  has_context = true;
  has_console = true;
  has_error = true;
  call_error = λ x msg. ok (record x { events = console_error msg ∷ x.events });
  stack_trace = [];
}

abbrev report : RaceReport
report = record {
  sab_offset = 0x46;
  sab_backing_store = 0x1000;
  sab_byte_length = 128;
  tid1 = 0;
  is_write1 = true;
  epoch1 = 3;
  tid2 = 1;
  is_write2 = false;
  epoch2 = 4;
}

-- The race of the report is pending.
abbrev racing : Caller
racing = record caller {
  tls = record thread_locals { race_detected = true; race_message = message report };
}

maybe_throw_race_once_example :
    (maybe_throw_race true callbacks realm racing
      ≡ realm.call_error (clear_race racing) (message report ++ realm.stack_trace))
    × (maybe_throw_race true callbacks realm (clear_race racing) ≡ ok (clear_race racing))
maybe_throw_race_once_example = maybe_throw_race_once true realm racing report refl refl refl refl

-- Thread 0 of the two threads calls.
abbrev worker : Caller
worker = record (with_tsan caller two_threads) {
  tls = record thread_locals { current_tsan_tid = 0 };
}

abbrev one : JsValue
one = record js_undefined { uint32_value = some 1 }

worker-tid : get_current_tid worker ≡ 0
unfolding get_current_tid
worker-tid = refl

set_current_tid_callback-TakesOver_example :
    Returns
      (λ y. (get_current_tid y ≡ 1) × TakesOver worker (get_current_tid worker) y)
      (set_current_tid_callback worker (one ∷ []))
set_current_tid_callback-TakesOver_example =
    set_current_tid_callback-TakesOver worker one [] refl (omega (arith, worker-tid)) (omega arith)
      (λ e. omega (arith, worker-tid, e))

caller-tid : get_current_tid caller ≡ uint32_max
unfolding get_current_tid
caller-tid = refl

abbrev array : JsTypedArray
array = record {
  is_shared = true;
  backing_store = 4096;
  byte_length = 128;
  byte_offset = 0;
  element_size = 4;
}

-- The thread has the functions of a page installed and is reporting a race.
abbrev reporting : Caller
reporting = record caller {
  tls = record thread_locals { globals_installed = true; in_trace_report = true };
}

abbrev frame : WasmFrame
frame = record { buffer_start = 4096; byte_length = 65536; has_native_context = true }

abbrev store_info : MemoryTracingInfo
store_info = record { offset = 16; mem_rep_size = 4; is_store = true; is_atomic = false }
