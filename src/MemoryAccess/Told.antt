-- ===== src/MemoryAccess/Told.antt =====
-- The report of a race by `MemoryAccess`: once for a site.
use webtsan.Prelude.{
  ℕ, ◌+◌, ◌≡◌, refl, Bool, true, false, Option, some, none, List, [], ◌∷◌, ◌++◌, if◌then◌else◌,
  Bool-cases, inl, inr, u64, if-cases, ap, ap₂, ◌∙◌, update, update_same,
}
use webtsan.Shadow.{RaceReport}
use webtsan.Caller.{Caller, Event, logged, called_back, with_tsan}
use webtsan.Report.{message, to_string, to_string_whole}
use webtsan.MemoryAccess.{site_key, report_race, log_first, call_back}

-- Nothing is told: the counter of races, the sites, the thread-local variables and the events are as
-- they were.
pub record IsSilent (x y : Caller) : Type 0 where
  pub same_count : y.tsan.races_detected ≡ x.tsan.races_detected
  pub same_sites : y.tsan.reported_race_sites ≡ x.tsan.reported_race_sites
  pub same_locals : y.tls ≡ x.tls
  pub same_events : y.events ≡ x.events

-- The events with the log line of the first race of all, and the call of the callback where one is set.
abbrev pub notices : Caller → RaceReport → List Event
notices x r =
    (if x.tsan.race_callback then called_back r ∷ [] else [])
    ++ ((if x.tsan.first_race_logged then [] else logged (message r) ∷ []) ++ x.events)

-- The report is counted, its site is noted, its text is left to the thread, and the notices go out.
pub record IsTold (x : Caller) (s : ℕ) (r : RaceReport) (y : Caller) : Type 0 where
  pub counted : y.tsan.races_detected ≡ u64 (x.tsan.races_detected + 1)
  pub noted : y.tsan.reported_race_sites (site_key s r.sab_offset) ≡ true
  pub pending : y.tls.race_detected ≡ true
  pub text : y.tls.race_message ≡ message r
  pub first : y.tsan.first_race_logged ≡ true
  pub sent : y.events ≡ notices x r

abbrev pub IsToldOnce : Bool → Caller → ℕ → RaceReport → Caller → Type 0
IsToldOnce true x s r y = IsSilent x y
IsToldOnce false x s r y = IsTold x s r y

-- A race is told unless its site has been reported before.
abbrev pub Tells : Caller → ℕ → Option RaceReport → Caller → Type 0
Tells x s none y = IsSilent x y
Tells x s (some r) y = IsToldOnce (x.tsan.reported_race_sites (site_key s r.sab_offset)) x s r y

-- What the threads and the buffers are, and whether the detector is enabled, is as it was.
pub record SameDetector (x y : Caller) : Type 0 where
  pub same_buffers : y.tsan.shadow_buffers ≡ x.tsan.shadow_buffers
  pub same_clocks : y.tsan.thread_clocks ≡ x.tsan.thread_clocks
  pub same_enabled : y.tsan.enabled ≡ x.tsan.enabled

-- What `log_first` makes of the state.
record IsLogged (x : Caller) (msg : List ℕ) (y : Caller) : Type 0 where
  first : y.tsan.first_race_logged ≡ true
  count : y.tsan.races_detected ≡ x.tsan.races_detected
  sites : y.tsan.reported_race_sites ≡ x.tsan.reported_race_sites
  callback : y.tsan.race_callback ≡ x.tsan.race_callback
  frame : SameDetector x y
  lines : y.events ≡ (if x.tsan.first_race_logged then [] else logged msg ∷ []) ++ x.events

log_first-IsLogged : (x : Caller) (msg : List ℕ) → IsLogged x msg (log_first x msg)
unfolding log_first
log_first-IsLogged x msg =
    if-cases (IsLogged x msg) x.tsan.first_race_logged
      (λ e. record {
        first = e;
        count = refl;
        sites = refl;
        callback = refl;
        frame = record { same_buffers = refl; same_clocks = refl; same_enabled = refl };
        lines = simp (e);
      })
      (λ e. record {
        first = refl;
        count = refl;
        sites = refl;
        callback = refl;
        frame = record { same_buffers = refl; same_clocks = refl; same_enabled = refl };
        lines = simp (e);
      })

-- What `call_back` makes of it.
record IsCalled (x : Caller) (r : RaceReport) (y : Caller) : Type 0 where
  same : y.tsan ≡ x.tsan
  locals : y.tls ≡ x.tls
  calls : y.events ≡ (if x.tsan.race_callback then called_back r ∷ [] else []) ++ x.events

call_back-IsCalled : (x : Caller) (r : RaceReport) → IsCalled x r (call_back x r)
unfolding call_back
call_back-IsCalled x r =
    if-cases (IsCalled x r) x.tsan.race_callback
      (λ e. record { same = refl; locals = refl; calls = simp (e) })
      (λ e. record { same = refl; locals = refl; calls = simp (e) })

report_race-IsTold :
    (x : Caller) (s : ℕ) (r : RaceReport)
    → x.tsan.reported_race_sites (site_key s r.sab_offset) ≡ false
    → IsTold x s r (report_race x s r)
unfolding report_race
report_race-IsTold x s r new =
    if-cases (IsTold x s r) (x.tsan.reported_race_sites (site_key s r.sab_offset))
      (λ e. cc (e, new))
      (λ _. record {
        counted = ap (λ t. t.races_detected) c.same ∙ l.count;
        noted =
            ap (λ t. t.reported_race_sites site) c.same
            ∙ ap (λ f. f site) l.sites
            ∙ update_same x.tsan.reported_race_sites site true;
        pending = ap (λ z. z.race_detected) c.locals;
        text = ap (λ z. z.race_message) c.locals ∙ to_string_whole r;
        first = ap (λ t. t.first_race_logged) c.same ∙ l.first;
        sent =
            c.calls
            ∙ ap₂ (λ cb es. (if cb then called_back r ∷ [] else []) ++ es) l.callback
                (l.lines
                  ∙ ap (λ m. (if x.tsan.first_race_logged then [] else logged m ∷ []) ++ x.events)
                      (to_string_whole r));
      })
  where
    site : ℕ
    site = site_key s r.sab_offset

    x1 : Caller
    x1 = with_tsan x (record (x.tsan) {
      reported_race_sites = update x.tsan.reported_race_sites site true;
      races_detected = u64 (x.tsan.races_detected + 1);
    })

    l : IsLogged x1 (to_string r) (log_first x1 (to_string r))
    l = log_first-IsLogged x1 (to_string r)

    x2 : Caller
    x2 = log_first x1 (to_string r)

    x3 : Caller
    x3 = record x2 { tls = record (x2.tls) { race_detected = true; race_message = to_string r } }

    c : IsCalled x3 r (call_back x3 r)
    c = call_back-IsCalled x3 r

IsSilent-refl : (x : Caller) → IsSilent x x
IsSilent-refl x = record {
  same_count = refl;
  same_sites = refl;
  same_locals = refl;
  same_events = refl;
}

report_race-IsSilent :
    (x : Caller) (s : ℕ) (r : RaceReport)
    → x.tsan.reported_race_sites (site_key s r.sab_offset) ≡ true
    → IsSilent x (report_race x s r)
unfolding report_race
report_race-IsSilent x s r seen =
    if-cases (IsSilent x) (x.tsan.reported_race_sites (site_key s r.sab_offset))
      (λ _. IsSilent-refl x) (λ e. cc (e, seen))

pub report_race-Tells :
    (x : Caller) (s : ℕ) (r : RaceReport) → Tells x s (some r) (report_race x s r)
report_race-Tells x s r = elim (Bool-cases (x.tsan.reported_race_sites (site_key s r.sab_offset))) [
  | inl seen ↦ rw seen (report_race-IsSilent x s r seen)
  | inr new ↦ rw new (report_race-IsTold x s r new)
]

SameDetector-call_back :
    (x y : Caller) (r : RaceReport) → SameDetector x y → SameDetector x (call_back y r)
SameDetector-call_back x y r p =
    let e = (call_back-IsCalled y r).same in
    record {
      same_buffers = ap (λ t. t.shadow_buffers) e ∙ p.same_buffers;
      same_clocks = ap (λ t. t.thread_clocks) e ∙ p.same_clocks;
      same_enabled = ap (λ t. t.enabled) e ∙ p.same_enabled;
    }

pub report_race-SameDetector :
    (x : Caller) (s : ℕ) (r : RaceReport) → SameDetector x (report_race x s r)
unfolding report_race
report_race-SameDetector x s r =
    if-cases (SameDetector x) (x.tsan.reported_race_sites (site_key s r.sab_offset))
      (λ _. record { same_buffers = refl; same_clocks = refl; same_enabled = refl })
      (λ _.
        let l = (log_first-IsLogged _ (to_string r)).frame in
        SameDetector-call_back x _ r (record {
          same_buffers = l.same_buffers;
          same_clocks = l.same_clocks;
          same_enabled = l.same_enabled;
        }))
