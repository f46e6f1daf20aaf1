-- ===== src/Callbacks/Race.antt =====
-- A pending race is taken once, by whoever asks for it first.
use webtsan.Prelude.{
  ℕ, ◌≡◌, refl, true, ap, List, none, some, take, take_all, Option, if-cases, not, ◌∙◌,
}
use webtsan.Shadow.{RaceReport}
use webtsan.Report.{message, length-message}
use webtsan.Caller.{Caller}
use webtsan.Console.{clear_race}
use webtsan.Callbacks.{consume_race}

-- Where the report of a race is pending, V8 is given the whole text, and no race after that.
pub consume_race_once :
    (x : Caller) (r : RaceReport)
    → x.tls.race_detected ≡ true
    → x.tls.race_message ≡ message r
    → let (y, text) = consume_race x 512 in
      (text ≡ some (message r)) × (consume_race y 512 ≡ (y, none))
unfolding consume_race
consume_race_once x r pending text =
    if-cases
      (λ (p : Caller × Option (List ℕ)).
        (p.1 ≡ some (message r)) × (consume_race p.0 512 ≡ (p.0, none)))
      (not x.tls.race_detected) (λ e. cc (e, pending))
      (λ _. (ap some (ap (take 511) text ∙ take_all 511 (message r) (length-message r)), refl))

pub consume_race-pending :
    (x : Caller) (r : RaceReport)
    → x.tls.race_detected ≡ true
    → x.tls.race_message ≡ message r
    → consume_race x 512 ≡ (clear_race x, some (message r))
unfolding consume_race
consume_race-pending x r pending text =
    if-cases (λ (p : Caller × Option (List ℕ)). p ≡ (clear_race x, some (message r)))
      (not x.tls.race_detected) (λ e. cc (e, pending))
      (λ _.
        ap (λ m. (clear_race x, some m))
          (ap (take 511) text ∙ take_all 511 (message r) (length-message r)))
