-- ===== src/Console/Guard.antt =====
-- The guard of `FlushPendingRaceToConsole`.
use webtsan.Prelude.{
  ◌≡◌, refl, true, false, not, List, ℕ, Outcome, ok, undefined, check_failed, ◌>>=◌, Returns,
  if-cases,
}
use webtsan.Caller.{Caller}
use webtsan.Console.{Realm, flush_pending_race, set_in_flush}

-- The page is called with no race pending and with the guard set, and then does not flush.
pub record IsGuarded (x : Caller) : Type 0 where
  pub taken : x.tls.race_detected ≡ false
  pub guard : x.tls.in_flush ≡ true

after_call :
    (m : Outcome Caller)
    → Returns (λ _. Unit {0}) m
    → Returns (λ y. y.tls.in_flush ≡ false) (m >>= λ y. ok (set_in_flush y false))
after_call (ok y) h = refl
after_call undefined h = h
after_call check_failed h = h

-- If console.error returns when it is called under the guard, a flush returns, and the guard is not left
-- set, whether there was a race, a context, a console, and whatever the page did; and under the guard
-- another flush does nothing.
pub flush_pending_race_guard :
    (realm : Realm) (x : Caller)
    → x.tls.in_flush ≡ false
    → ((y : Caller) (msg : List ℕ) → IsGuarded y → Returns (λ _. Unit {0}) (realm.call_error y msg))
    → Returns (λ y. y.tls.in_flush ≡ false) (flush_pending_race realm x)
      × ((y : Caller) → IsGuarded y → flush_pending_race realm y ≡ ok y)
unfolding flush_pending_race
flush_pending_race_guard realm x free returns = (
  if-cases P x.tls.in_flush (λ _. free)
      (λ _.
        if-cases P (not x.tls.race_detected) (λ _. free)
          (λ _.
            if-cases P (not realm.has_context) (λ _. refl)
              (λ _.
                if-cases P (not realm.has_console) (λ _. refl)
                  (λ _.
                    if-cases P (not realm.has_error) (λ _. refl)
                      (λ _.
                        after_call _ (
                          returns _ x.tls.race_message
                            (record { taken = refl; guard = refl }))))))),
  λ y g. if-cases (λ z. z ≡ ok y) y.tls.in_flush (λ _. refl) (λ e. cc (e, g.guard)),
)
  where
    P : Outcome Caller → Type 0
    P = Returns (λ y. y.tls.in_flush ≡ false)
