-- ===== src/Trace/Guard.antt =====
-- The guard of the report of a race.
use webtsan.Prelude.{
  ℕ, ◌≡◌, refl, ap, ◌∙◌, if◌then◌else◌, Bool, true, false, not, List, Option, none, some, Outcome,
  ok, undefined, check_failed, ◌>>=◌, ◌||◌, ◌==◌, Returns, Returns-map, if-cases,
}
use webtsan.Caller.{Caller}
use webtsan.Callbacks.{callbacks}
use webtsan.Console.{Realm}
use webtsan.Runtime.{report_to_console}
use webtsan.Trace.{
  MemoryTracingInfo, WasmFrame, set_in_trace_report, trace_race, install_once, trace_access,
  trace_memory, trace_atomic,
}

module _ (realm : Realm) (install : Option (Caller → Outcome Caller)) (x : Caller)
    (frame : WasmFrame) (info : MemoryTracingInfo) where
  install_once-ok :
      x.tls.globals_installed ≡ true → install_once true callbacks realm install x frame ≡ ok x
  unfolding install_once
  install_once-ok installed =
      if-cases (λ m. m ≡ ok x) x.tls.globals_installed (λ _. refl) (λ e. cc (e, installed))

  trace_access-ok :
      x.tls.in_trace_report ≡ true → trace_access true callbacks realm install x frame info ≡ ok x
  unfolding trace_access
  trace_access-ok guarded =
      if-cases (λ m. m ≡ ok x) x.tls.in_trace_report (λ _. refl) (λ e. cc (e, guarded))

  -- With the functions of a page installed: while a race is reported, an access of the page that is not
  -- atomic is not recorded; its trace returns with the state as it is.
  pub trace_memory_guard :
      x.tls.globals_installed ≡ true
      → x.tls.in_trace_report ≡ true
      → info.is_atomic ≡ false
      → trace_memory true callbacks realm install x frame info ≡ ok x
  unfolding trace_memory
  trace_memory_guard installed guarded plain =
      if-cases (λ m. m ≡ ok x) (not true || (frame.buffer_start == 0)) (λ _. refl)
        (λ _.
          ap (λ m. m >>= next) (install_once-ok installed)
          ∙ if-cases (λ m. m ≡ ok x) info.is_atomic (λ e. cc (e, plain))
              (λ _. trace_access-ok guarded))
    where
      next : Caller → Outcome Caller
      next y =
          if info.is_atomic
          then trace_atomic true callbacks realm install y frame info
          else trace_access true callbacks realm install y frame info

-- If console.error returns under the guard, the report of a race returns and does not leave the guard set.
report-Returns :
    (realm : Realm) (y : Caller) (msg : List ℕ)
    → ((z : Caller) (text : List ℕ)
        → z.tls.in_trace_report ≡ true
        → Returns (λ _. Unit {0}) (realm.call_error z text))
    → y.tls.in_trace_report ≡ true
    → Returns (λ _. Unit {0}) (report_to_console realm y msg)
unfolding report_to_console
report-Returns realm y msg h guard =
    if-cases P (not realm.has_console) (λ _. tt)
      (λ _. if-cases P (not realm.has_error) (λ _. tt) (λ _. h y _ guard))
  where
    P : Outcome Caller → Type 0
    P = Returns (λ _. Unit {0})

unset :
    (m : Outcome Caller)
    → Returns (λ _. Unit {0}) m
    → Returns (λ z. z.tls.in_trace_report ≡ false) (m >>= λ z. ok (set_in_trace_report z false))
unset (ok z) h = refl
unset webtsan.Prelude.undefined h = h
unset webtsan.Prelude.check_failed h = h

-- If console.error returns when it is called under the guard, then the hand-over of a race returns
-- with the guard not set, whether there is a race and a console or not.
pub trace_race_guard :
    (realm : Realm) (y : Caller) (race : Option (List ℕ))
    → ((z : Caller) (text : List ℕ)
        → z.tls.in_trace_report ≡ true
        → Returns (λ _. Unit {0}) (realm.call_error z text))
    → y.tls.in_trace_report ≡ false
    → Returns (λ z. z.tls.in_trace_report ≡ false) (trace_race realm (y, race))
unfolding trace_race
trace_race_guard realm y none h free = free
trace_race_guard realm y (some msg) h free = unset _ (report-Returns realm _ msg h refl)
