-- ===== src/Futex/Wake/Woken.antt =====
-- A wake of synchronous waiters.
use webtsan.Prelude.{
  ℕ, zero, suc, ◌+◌, ◌≡◌, ◌≤◌, refl, sym, ap, ap₂, ◌∙◌, Bool, true, false, List, [], ◌∷◌, Option,
  none, some, arith, if◌then◌else◌, length, ok, ◌>>=◌, Bool-cases, inl, inr,
}
use webtsan.Futex.{FutexWaitList, set_waiting}
use webtsan.Futex.Links.{Linked, head_or}
use webtsan.Futex.Links.Members.{Distinct}
use webtsan.Futex.Listed.Changes.{ends, IsListed}
use webtsan.Futex.Wake.{
  k_wake_all, one_fewer, wake_as, wake_node, wake_turn, wake_loop, wake_entry, wake_list, matching,
  passed, matching_case, wake_case,
}
use webtsan.Futex.Wake.Chosen.{
  waiting_among, chosen, woken_waiter, woken_waiters, chosen-nil, chosen-cons, waiting_among-update,
  AllSync, AllSync-update, Linked-woken, one_fewer_fits,
}

module _ (expired : ℕ → Bool) (l : ℕ) where
  -- What the loop comes to when it wakes the chosen ones among `ys`.
  abbrev Wakes : FutexWaitList → ℕ → ℕ → List ℕ → FutexWaitList × ℕ
  Wakes w num woken ys = (woken_waiters w (chosen num ys), woken + length (chosen num ys))

  module _ (fuel : ℕ) (w : FutexWaitList) (x : ℕ) (xs : List ℕ) (num woken : ℕ)
      (next : (w.nodes x).next ≡ head_or xs none) where
    woken_turn :
        (ys : List ℕ)
        → (w.nodes x).waiting ≡ true
        → (w.nodes x).async_state ≡ none
        → suc num ≤ k_wake_all
        → wake_loop expired fuel
            (woken_waiter w x)
            (head_or xs none)
            (one_fewer (suc num))
            (woken + 1)
          ≡ ok (Wakes (woken_waiter w x) (one_fewer (suc num)) (woken + 1) ys)
        → wake_loop expired (suc fuel) w (some x) (suc num) woken
          ≡ ok (Wakes w (suc num) woken (x ∷ ys))
    unfolding wake_loop wake_turn wake_node
    woken_turn ys h b fits ih =
        let v = woken_waiter w x in
        let is_case : wake_case expired (w.nodes x) ≡ matching =
          ap₂ (λ t o. if t then matching_case expired o else passed) h b in
        let is_woken : wake_node w x ≡ ok v = ap (λ o. wake_as o (set_waiting w x false) x) b in
        ap (λ c. wake_turn c w x (suc num) woken (wake_loop expired fuel)) is_case
        ∙ ap
            (λ m. m >>= (λ u.
              wake_loop expired fuel u (w.nodes x).next (one_fewer (suc num)) (woken + 1)))
            is_woken
        ∙ ap (λ q. wake_loop expired fuel v q (one_fewer (suc num)) (woken + 1)) next
        ∙ ih
        ∙ ap (λ k. ok (woken_waiters v (chosen (one_fewer (suc num)) ys), k)) (omega arith)
        ∙ ap (λ zs. ok (woken_waiters w zs, woken + length zs)) (sym (chosen-cons num x ys fits))

    passed_turn :
        (ys : List ℕ)
        → (w.nodes x).waiting ≡ false
        → wake_loop expired fuel w (head_or xs none) (suc num) woken
          ≡ ok (Wakes w (suc num) woken ys)
        → wake_loop expired (suc fuel) w (some x) (suc num) woken ≡ ok (Wakes w (suc num) woken ys)
    unfolding wake_loop wake_turn
    passed_turn ys h ih =
        ap
          (λ t.
            wake_turn (if t then matching_case expired (w.nodes x).async_state else passed) w x
              (suc num) woken (wake_loop expired fuel))
          h
        ∙ ap (λ q. wake_loop expired fuel w q (suc num) woken) next
        ∙ ih

  wake_loop-woken_waiters :
      (fuel : ℕ) (w : FutexWaitList) (p : Option ℕ) (xs : List ℕ) (num woken : ℕ)
      → Linked w.nodes l p xs none
      → Distinct xs
      → AllSync w.nodes xs
      → num ≤ k_wake_all
      → length xs ≤ fuel
      → wake_loop expired fuel w (head_or xs none) num woken
        ≡ ok (
          woken_waiters w (chosen num (waiting_among w.nodes xs)),
          woken + length (chosen num (waiting_among w.nodes xs)),
        )
  unfolding wake_loop wake_node
  wake_loop-woken_waiters fuel w p [] num woken s d a fits enough =
      rw (chosen-nil num) (ap (λ k. ok (w, k)) (omega arith))
  wake_loop-woken_waiters fuel w p (x ∷ xs) zero woken s d a fits enough =
      ap (λ k. ok (w, k)) (omega arith)
  wake_loop-woken_waiters zero w p (x ∷ xs) (suc num) woken s d a fits enough = absurd (omega arith)
  wake_loop-woken_waiters (suc fuel) w p (x ∷ xs) (suc num) woken (e, f, g, s) (out, d) (b, a) fits
        enough =
      let v = woken_waiter w x in
      let same = waiting_among-update w.nodes xs x (record (w.nodes x) { waiting = false }) out in
      elim (Bool-cases (w.nodes x).waiting) [
        | inl h ↦
            woken_turn fuel w x xs num woken f (waiting_among w.nodes xs) h b fits (
              wake_loop-woken_waiters fuel v (some x) xs (one_fewer (suc num)) (woken + 1)
                (Linked-woken w l x (some x) none xs s) d (AllSync-update w.nodes xs x false a)
                (one_fewer_fits num fits) (omega arith)
              ∙ ap (λ zs. ok (Wakes v (one_fewer (suc num)) (woken + 1) zs)) same)
            ∙ ap
                (λ t. ok (
                  Wakes w (suc num) woken
                    (if t then x ∷ waiting_among w.nodes xs else waiting_among w.nodes xs)))
                (sym h)
        | inr h ↦
            passed_turn fuel w x xs num woken f (waiting_among w.nodes xs) h
              (wake_loop-woken_waiters fuel w (some x) xs (suc num) woken s d a fits (omega arith))
            ∙ ap
                (λ t. ok (
                  Wakes w (suc num) woken
                    (if t then x ∷ waiting_among w.nodes xs else waiting_among w.nodes xs)))
                (sym h)
      ]

  -- Where the list stands for the waiters of each location, those of the location are all synchronous, the number
  -- is an uint32_t and the fuel is at least the number of waiters: Wake returns, wakes the first of those that
  -- still wait, as many as the number says and all for kWakeAll, in their order, notifies them and no other,
  -- counts them, and leaves each in the list.
  pub wake_list-Wakes :
      (fuel : ℕ) (w : FutexWaitList) (waiters : ℕ → List ℕ) (num : ℕ)
      → IsListed w.nodes w.location_lists waiters
      → AllSync w.nodes (waiters l)
      → num ≤ k_wake_all
      → length (waiters l) ≤ fuel
      → wake_list expired fuel w l num
        ≡ ok (
          woken_waiters w (chosen num (waiting_among w.nodes (waiters l))),
          length (chosen num (waiting_among w.nodes (waiters l))),
        )
  unfolding wake_list
  wake_list-Wakes fuel w waiters num is sync fits enough =
      ap (wake_entry expired fuel w num) (is.found l)
      ∙ entry (waiters l) (is.links l) (is.distinct l) sync enough
    where
      entry :
          (xs : List ℕ)
          → Linked w.nodes l none xs none
          → Distinct xs
          → AllSync w.nodes xs
          → length xs ≤ fuel
          → wake_entry expired fuel w num (ends xs)
            ≡ ok (
              woken_waiters w (chosen num (waiting_among w.nodes xs)),
              length (chosen num (waiting_among w.nodes xs)),
            )
      entry [] s d a h = rw (chosen-nil num) refl
      entry (x ∷ xs) s d a h =
          wake_loop-woken_waiters fuel w none (x ∷ xs) num 0 s d a fits h
          ∙ ap (λ k. ok (woken_waiters w (chosen num (waiting_among w.nodes (x ∷ xs))), k))
              (omega arith)
