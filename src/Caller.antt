-- ===== src/Caller.antt =====
-- What a call of a hook sees: the singleton, the thread-local variables of
-- patches/chromium/new-files/third_party/blink/renderer/core/tsan/web_tsan_hooks.h, and what has been
-- sent out so far, newest first.
pub mod Suppress
use webtsan.Prelude.{ℕ, ◌-◌, ◌+◌, Bool, false, List, [], ltb, if◌then◌else◌, u32, uint32_max}
use webtsan.Shadow.{RaceReport}
use webtsan.Detector.{WebTSan, web_tsan}

-- `g_current_tsan_tid`, `g_race_detected`, `g_race_message`, `g_current_suppress_depth` and
-- `g_in_race_report`, `s_in_flush` of web_tsan_init.cc, and `webtsan_globals_installed` and
-- `s_in_race_report` of runtime-test-wasm.cc. The message is the text before the terminator.
pub record ThreadLocals : Type 0 where
  pub current_tsan_tid : ℕ
  pub race_detected : Bool
  pub race_message : List ℕ
  pub current_suppress_depth : ℕ
  pub in_race_report : Bool
  pub in_flush : Bool
  pub globals_installed : Bool
  pub in_trace_report : Bool

abbrev pub thread_locals : ThreadLocals
thread_locals = record {
  current_tsan_tid = uint32_max;
  race_detected = false;
  race_message = [];
  current_suppress_depth = 0;
  in_race_report = false;
  in_flush = false;
  globals_installed = false;
  in_trace_report = false;
}

-- An error that is logged, the warning of the start with the id of the main thread, a call of the race
-- callback, a call of console.error.
pub data Event : Type 0 where
  logged : List ℕ → Event
  enabled_with : ℕ → Event
  called_back : RaceReport → Event
  console_error : List ℕ → Event

pub record Caller : Type 0 where
  pub tsan : WebTSan
  pub tls : ThreadLocals
  pub events : List Event

abbrev pub caller : Caller
caller = record { tsan = web_tsan; tls = thread_locals; events = [] }

abbrev pub with_tsan : Caller → WebTSan → Caller
with_tsan x t = record x { tsan = t }

unfoldable pub get_current_tid : Caller → ℕ
get_current_tid x = x.tls.current_tsan_tid

unfoldable pub set_current_tid : Caller → ℕ → Caller
set_current_tid x tid = record x { tls = record (x.tls) { current_tsan_tid = tid } }

pub push_suppress : Caller → Caller
push_suppress x = record x {
  tls = record (x.tls) { current_suppress_depth = u32 (x.tls.current_suppress_depth + 1) };
}

pub pop_suppress : Caller → Caller
pop_suppress x =
    if ltb 0 x.tls.current_suppress_depth
    then record x {
      tls = record (x.tls) { current_suppress_depth = x.tls.current_suppress_depth - 1 };
    }
    else x

pub is_suppressed : Caller → Bool
is_suppressed x = ltb 0 x.tls.current_suppress_depth

pub reset_suppress : Caller → Caller
reset_suppress x = record x { tls = record (x.tls) { current_suppress_depth = 0 } }
