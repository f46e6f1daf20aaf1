-- ===== src/Futex/Wake/Waiter.antt =====
-- A waiter that has been woken returns.
use webtsan.Prelude.{
  ℕ, ◌==◌, ◌≡◌, ◌≤◌, refl, sym, ap, ap₂, ◌∙◌, Bool, true, false, List, [], ◌∷◌, Option, some, arith,
  if◌then◌else◌, subst, length, Returns, Bool-cases, inl, inr,
}
use webtsan.Futex.{FutexWaitList, set_interrupted}
use webtsan.Futex.Links.Members.{has}
use webtsan.Futex.Listed.Changes.{IsListed}
use webtsan.Futex.Wait.{
  Round, done, again, sleep, handle_interrupts, smi, k_ok, wait_round, wait_loop,
}
use webtsan.Futex.Wake.{k_wake_all, wake_list}
use webtsan.Futex.Wake.Chosen.{waiting_among, chosen, woken_waiter, woken_waiters, AllSync}
use webtsan.Futex.Wake.Woken.{wake_list-Wakes}

woken_waiters-interrupted :
    (w : FutexWaitList) (ns : List ℕ) (n : ℕ)
    → ((woken_waiters w ns).nodes n).interrupted ≡ (w.nodes n).interrupted
woken_waiters-interrupted w [] n = refl
woken_waiters-interrupted w (x ∷ xs) n =
    woken_waiters-interrupted (woken_waiter w x) xs n ∙ ground arith

-- A node that does not wait does not wait afterwards.
woken_waiters-stays :
    (w : FutexWaitList) (ns : List ℕ) (n : ℕ)
    → (w.nodes n).waiting ≡ false
    → ((woken_waiters w ns).nodes n).waiting ≡ false
woken_waiters-stays w [] n h = h
woken_waiters-stays w (x ∷ xs) n h = woken_waiters-stays (woken_waiter w x) xs n (ground (arith, h))

woken_waiters-waiting :
    (w : FutexWaitList) (ns : List ℕ) (n : ℕ)
    → has n ns ≡ true
    → ((woken_waiters w ns).nodes n).waiting ≡ false
woken_waiters-waiting w [] n h = cc
woken_waiters-waiting w (x ∷ xs) n h = elim (Bool-cases (n == x)) [
  | inl e ↦ woken_waiters-stays (woken_waiter w x) xs n (ground (arith, e))
  | inr e ↦ woken_waiters-waiting (woken_waiter w x) xs n (ground (arith, e, h))
]

wait_loop-ok :
    (n : ℕ) (timeout : Option ℕ) (r : Round) (rs : List Round) (v : FutexWaitList)
    → (v.nodes n).interrupted ≡ false
    → (v.nodes n).waiting ≡ false
    → wait_loop n timeout (r ∷ rs) v ≡ some (smi k_ok, v)
unfolding wait_loop wait_round
wait_loop-ok n timeout r rs v calm woken =
    let round : wait_round n timeout r v ≡ done (smi k_ok) v =
      ap₂
        (λ b c.
          if b
          then handle_interrupts n timeout r (r.handled (set_interrupted v n false))
          else if b
          then again v
          else if c
          then sleep n timeout r v
          else done (smi k_ok) v)
        calm woken in
    ap (λ m. elim m [ done res u ↦ some (res, u) | again u ↦ wait_loop n timeout rs u ]) round

module _ (expired : ℕ → Bool) (l fuel num : ℕ) (w : FutexWaitList) (waiters : ℕ → List ℕ)
    (is : IsListed w.nodes w.location_lists waiters) (sync : AllSync w.nodes (waiters l))
    (fits : num ≤ k_wake_all) (enough : length (waiters l) ≤ fuel) where
  -- A wake of synchronous waiters as before, and a waiter of the location that is among the first so many of those
  -- that still wait and has no interrupt pending: when its loop goes on after the wake, it returns "ok" at once, also
  -- when its time is over by then.
  pub wake_list-wait_loop :
      (n : ℕ) (timeout : Option ℕ) (r : Round) (rs : List Round)
      → has n (chosen num (waiting_among w.nodes (waiters l))) ≡ true
      → (w.nodes n).interrupted ≡ false
      → Returns
          (λ (v, woken). wait_loop n timeout (r ∷ rs) v ≡ some (smi k_ok, v))
          (wake_list expired fuel w l num)
  wake_list-wait_loop n timeout r rs h calm =
      let ns = chosen num (waiting_among w.nodes (waiters l)) in
      subst (Returns (λ (v, woken). wait_loop n timeout (r ∷ rs) v ≡ some (smi k_ok, v)))
        (sym (wake_list-Wakes expired l fuel w waiters num is sync fits enough))
        (wait_loop-ok n timeout r rs (woken_waiters w ns) (woken_waiters-interrupted w ns n ∙ calm)
          (woken_waiters-waiting w ns n h))
