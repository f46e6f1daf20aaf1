-- ===== src/Runtime/Race.antt =====
-- How the runtime functions hand a pending race to the console.
use webtsan.Prelude.{◌≡◌, refl, Bool, true, ap, ◌∙◌, ◌++◌, ok}
use webtsan.Shadow.{RaceReport}
use webtsan.Report.{message}
use webtsan.Caller.{Caller}
use webtsan.Callbacks.{callbacks, consume_race}
use webtsan.Callbacks.Race.{consume_race-pending}
use webtsan.Console.{Realm, clear_race}
use webtsan.Runtime.{maybe_throw_race, throw_race, report_to_console}

-- With the callbacks registered and a console: where the report of a race is pending, console.error is
-- called once, with the whole text and the stack, in a state in which no race is pending; and in that
-- state no race is handed on.
pub maybe_throw_race_once :
    (flag : Bool) (realm : Realm) (x : Caller) (r : RaceReport)
    → realm.has_console ≡ true
    → realm.has_error ≡ true
    → x.tls.race_detected ≡ true
    → x.tls.race_message ≡ message r
    → (maybe_throw_race flag callbacks realm x
        ≡ realm.call_error (clear_race x) (message r ++ realm.stack_trace))
      × (maybe_throw_race flag callbacks realm (clear_race x) ≡ ok (clear_race x))
unfolding maybe_throw_race throw_race report_to_console
maybe_throw_race_once flag realm x r console error pending text = (
  ap (throw_race realm) (consume_race-pending x r pending text) ∙ simp (console, error),
  unfold consume_race in refl,
)
