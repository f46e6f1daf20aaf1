-- ===== src/Futex/Wait/Waits.antt =====
-- A synchronous wait keeps its node among the waiters of the location while it goes on.
use webtsan.Prelude.{
  ℕ, ◌≡◌, sym, Bool, false, List, [], ◌∷◌, ◌++◌, Option, none, some, update, update_same, arith,
  if◌then◌else◌, subst, leb, if-cases,
}
use webtsan.Futex.{FutexWaitList, set_waiting, set_interrupted}
use webtsan.Futex.Links.Members.{has}
use webtsan.Futex.Listed.Changes.{IsListed, IsListed-same}
use webtsan.Futex.Wait.{
  Round, RoundResult, done, again, sleep, after_interrupts, handle_interrupts, wait_round,
  wait_loop, WaitResult, smi, interrupt_object, k_ok, k_timed_out,
}

-- The node is among the waiters of `l`.
pub record Waits (n l : ℕ) (w : FutexWaitList) : Type 0 where
  pub waiters : ℕ → List ℕ
  pub listed : IsListed w.nodes w.location_lists waiters
  pub before : List ℕ
  pub after : List ℕ
  pub at : waiters l ≡ before ++ (n ∷ after)
  pub location : (w.nodes n).wait_location ≡ l

-- The list stands for waiters of each location, the node is not among them, and has no links.
pub record NotWaiting (n : ℕ) (w : FutexWaitList) : Type 0 where
  pub waiters : ℕ → List ℕ
  pub listed : IsListed w.nodes w.location_lists waiters
  pub out : (l : ℕ) → has n (waiters l) ≡ false
  pub no_prev : (w.nodes n).prev ≡ none
  pub no_next : (w.nodes n).next ≡ none

pub appended :
    (f : ℕ → List ℕ) (k l n : ℕ) → k ≡ l → update f k (f k ++ (n ∷ [])) l ≡ f l ++ (n ∷ [])
appended f k l n e =
    subst (λ (j : ℕ). update f j (f j ++ (n ∷ [])) l ≡ f l ++ (n ∷ [])) (sym e)
      (update_same f l (f l ++ (n ∷ [])))

module _ (n l : ℕ) where
  pub Waits-set_waiting :
      (w : FutexWaitList) (b : Bool) → Waits n l w → Waits n l (set_waiting w n b)
  Waits-set_waiting w b is = record {
    waiters = is.waiters;
    listed =
        IsListed-same w (set_waiting w n b) is.waiters
          (λ a. (ground arith, ground arith, ground arith)) is.listed;
    before = is.before;
    after = is.after;
    at = is.at;
    location = ground (arith, is.location);
  }

  Waits-set_interrupted :
      (w : FutexWaitList) (b : Bool) → Waits n l w → Waits n l (set_interrupted w n b)
  Waits-set_interrupted w b is = record {
    waiters = is.waiters;
    listed =
        IsListed-same w (set_interrupted w n b) is.waiters
          (λ a. (ground arith, ground arith, ground arith)) is.listed;
    before = is.before;
    after = is.after;
    at = is.at;
    location = ground (arith, is.location);
  }

  -- Other threads keep the node among the waiters.
  abbrev pub Keeps : (FutexWaitList → FutexWaitList) → Type 0
  Keeps f = (w : FutexWaitList) → Waits n l w → Waits n l (f w)

  abbrev pub AllKeep : List Round → Type 0
  AllKeep [] = Unit
  AllKeep (r ∷ rs) = Keeps r.handled × Keeps r.slept × AllKeep rs

  abbrev AfterRound : RoundResult → Type 0
  AfterRound (done res w) = Waits n l w
  AfterRound (again w) = Waits n l w

  abbrev pub AfterLoop : Option (WaitResult × FutexWaitList) → Type 0
  AfterLoop none = Unit
  AfterLoop (some (res, w)) = Waits n l w

  module _ (timeout : Option ℕ) where
    sleep-Waits :
        (r : Round) (w : FutexWaitList)
        → Keeps r.slept
        → Waits n l w
        → AfterRound (sleep n timeout r w)
    sleep-Waits r w keeps is = elim timeout as (λ t. AfterRound (sleep n t r w)) [
      | none ↦ keeps w is
      | some t ↦
          if-cases AfterRound (leb t r.now) {x = done (smi k_timed_out) w} {y = again (r.slept w)}
            (λ _. is) (λ _. keeps w is)
    ]

    after_interrupts-Waits :
        (r : Round) (w : FutexWaitList)
        → Keeps r.slept
        → Waits n l w
        → AfterRound (after_interrupts n timeout r w)
    after_interrupts-Waits r w keeps is =
        if-cases AfterRound (w.nodes n).interrupted {x = again w}
          {y = if (w.nodes n).waiting then sleep n timeout r w else done (smi k_ok) w} (λ _. is)
          (λ _.
            if-cases AfterRound (w.nodes n).waiting {x = sleep n timeout r w}
              {y = done (smi k_ok) w} (λ _. sleep-Waits r w keeps is) (λ _. is))

    wait_round-Waits :
        (r : Round) (w : FutexWaitList)
        → Keeps r.handled
        → Keeps r.slept
        → Waits n l w
        → AfterRound (wait_round n timeout r w)
    unfolding wait_round
    wait_round-Waits r w handled slept is =
        let v = r.handled (set_interrupted w n false) in
        let there = handled _ (Waits-set_interrupted w false is) in
        if-cases AfterRound (w.nodes n).interrupted {x = handle_interrupts n timeout r v}
          {y = after_interrupts n timeout r w}
          (λ _.
            elim r.exception
              as (λ e. AfterRound (elim e [
                | none ↦ after_interrupts n timeout r v
                | some o ↦ done (interrupt_object o) v
              ])) [ none ↦ after_interrupts-Waits r v slept there | some o ↦ there ])
          (λ _. after_interrupts-Waits r w slept is)

    pub wait_loop-Waits :
        (rs : List Round) (w : FutexWaitList)
        → AllKeep rs
        → Waits n l w
        → AfterLoop (wait_loop n timeout rs w)
    unfolding wait_loop
    wait_loop-Waits [] w keeps is = tt
    wait_loop-Waits (r ∷ rs) w (h, s, keeps) is =
        go (wait_round n timeout r w) (wait_round-Waits r w h s is)
          (λ v there. wait_loop-Waits rs v keeps there)
      where
        go :
            (m : RoundResult)
            → AfterRound m
            → ((v : FutexWaitList) → Waits n l v → AfterLoop (wait_loop n timeout rs v))
            → AfterLoop (elim m [ done res v ↦ some (res, v) | again v ↦ wait_loop n timeout rs v ])
        go (done res v) there next = there
        go (again v) there next = next v there
