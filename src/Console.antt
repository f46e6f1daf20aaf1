-- ===== src/Console.antt =====
-- The way of a pending race to the console of the page, `FlushPendingRaceToConsole` of
-- patches/chromium/new-files/third_party/blink/renderer/core/tsan/web_tsan_init.cc.
pub mod Guard
use webtsan.Prelude.{ℕ, Bool, true, false, not, List, [], if◌then◌else◌, Outcome, ok, ◌>>=◌}
use webtsan.Caller.{Caller, Event, console_error}

-- What V8 and the page answer: whether there is a current context, whether the global `console` is an
-- object and its `error` a function, what a call of that function does, whose exceptions are
-- swallowed, and the text of the stack.
pub record Realm : Type 0 where
  pub has_context : Bool
  pub has_console : Bool
  pub has_error : Bool
  pub call_error : Caller → List ℕ → Outcome Caller
  pub stack_trace : List ℕ

abbrev pub set_in_flush : Caller → Bool → Caller
set_in_flush x b = record x { tls = record (x.tls) { in_flush = b } }

-- The pending race is taken.
abbrev pub clear_race : Caller → Caller
clear_race x = record x { tls = record (x.tls) { race_detected = false; race_message = [] } }

unfoldable pub flush_pending_race : Realm → Caller → Outcome Caller
flush_pending_race realm x =
    if x.tls.in_flush
    then ok x
    else if not x.tls.race_detected
    then ok x
    else (let msg = x.tls.race_message in
        let x1 = clear_race (set_in_flush x true) in
        if not realm.has_context
        then ok (set_in_flush x1 false)
        else if not realm.has_console
        then ok (set_in_flush x1 false)
        else if not realm.has_error
        then ok (set_in_flush x1 false)
        else realm.call_error x1 msg >>= (λ y. ok (set_in_flush y false)))
