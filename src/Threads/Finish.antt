-- ===== src/Threads/Finish.antt =====
-- `ThreadFinish`: the final clock goes to the orphan clock and to every other live thread.
use webtsan.Prelude.{
  ℕ, zero, suc, ◌+◌, ◌<◌, ◌≤◌, ◌≡◌, ◌≢◌, ◌⊎◌, refl, Bool, true, false, arith, update, ◌==◌, ==_iff,
  if◌then◌else◌, not, ◌||◌, ◌∙◌, leb, sym, ap, ap₂, inl, inr, Bool-cases,
}
use native.Mathlib.Decide.{ℕ_discrete}
use webtsan.Clock.{VClock, k_max_threads, join}
use webtsan.Detector.{WebTSan}
use webtsan.Threads.{broadcast, thread_finish}

module _ (alive : ℕ → Bool) (tid : ℕ) where
  abbrev round : ℕ → (ℕ → VClock) → ℕ → VClock
  round i clocks =
      if (i == tid) || not (alive i) then clocks else update clocks i (join (clocks i) (clocks tid))

  round-other : (i u : ℕ) (clocks : ℕ → VClock) → i ≢ u → round i clocks u ≡ clocks u
  round-other i u clocks ne = ground arith

  round-skip :
      (i : ℕ) (clocks : ℕ → VClock) → (i ≡ tid) ⊎ (alive i ≡ false) → round i clocks ≡ clocks
  round-skip i clocks (inl e) = rw ((==_iff i tid).1 e)
  round-skip i clocks (inr e) = rw e (ground arith)

  round_self :
      (i : ℕ) (clocks : ℕ → VClock)
      → i ≢ tid
      → alive i ≡ true
      → round i clocks i ≡ join (clocks i) (clocks tid)
  round_self i clocks ne e = ground arith

  round-tid : (i : ℕ) (clocks : ℕ → VClock) → round i clocks tid ≡ clocks tid
  round-tid i clocks = elim (ℕ_discrete i tid) [
    | yes e ↦ ap (λ f. f tid) (round-skip i clocks (inl e))
    | no ne ↦ round-other i tid clocks ne
  ]

  broadcast-below :
      (n i u : ℕ) (clocks : ℕ → VClock) → u < i → broadcast n i alive tid clocks u ≡ clocks u
  unfolding broadcast
  broadcast-below zero i u clocks h = refl
  broadcast-below (suc n) i u clocks h =
      broadcast-below n (suc i) u (round i clocks) (omega arith)
      ∙ round-other i u clocks (omega arith)

  broadcast-skip :
      (n i u : ℕ) (clocks : ℕ → VClock)
      → (u ≡ tid) ⊎ (alive u ≡ false)
      → broadcast n i alive tid clocks u ≡ clocks u
  unfolding broadcast
  broadcast-skip zero i u clocks h = refl
  broadcast-skip (suc n) i u clocks h =
      broadcast-skip n (suc i) u (round i clocks) h ∙ (elim (ℕ_discrete i u) [
        | yes e ↦ rw e (ap (λ f. f u) (round-skip u clocks h))
        | no ne ↦ round-other i u clocks ne
      ])

  broadcast-reached :
      (n i u : ℕ) (clocks : ℕ → VClock)
      → i ≤ u
      → u < i + n
      → u ≢ tid
      → alive u ≡ true
      → broadcast n i alive tid clocks u ≡ join (clocks u) (clocks tid)
  unfolding broadcast
  broadcast-reached zero i u clocks lo hi ne e = absurd (omega arith)
  broadcast-reached (suc n) i u clocks lo hi ne e = elim (ℕ_discrete i u) [
    | yes same ↦ rw (← same) (
        broadcast-below n (suc i) i (round i clocks) (omega arith)
        ∙ round_self i clocks (λ x. ne (sym same ∙ x)) (rw same e))
    | no other ↦
        broadcast-reached n (suc i) u (round i clocks) (omega arith) (omega arith) ne e
        ∙ ap₂ join (round-other i u clocks other) (round-tid i clocks)
  ]

  -- Each clock is kept, or joined with that of the thread.
  pub broadcast_cases :
      (clocks : ℕ → VClock) (u : ℕ)
      → u < k_max_threads
      → let k = broadcast k_max_threads 0 alive tid clocks in
        (k u ≡ clocks u) ⊎ (k u ≡ join (clocks u) (clocks tid))
  broadcast_cases clocks u lt = elim (ℕ_discrete u tid) [
    | yes e ↦ inl (broadcast-skip 64 0 u clocks (inl e))
    | no ne ↦ elim (Bool-cases (alive u)) [
      | inl e ↦ inr (broadcast-reached 64 0 u clocks (omega arith) (omega arith) ne e)
      | inr e ↦ inl (broadcast-skip 64 0 u clocks (inr e))
    ]
  ]

-- After `ThreadFinish` of a thread, while the detector is enabled: the orphan clock and the clock of
-- every other live thread are joined with its clock; its own clock, the clocks of threads that are not
-- alive, and which threads are alive stay as they were.
pub thread_finish-clocks :
    (t : WebTSan) (tid : ℕ)
    → t.enabled ≡ true
    → tid < k_max_threads
    → let t' = thread_finish t tid in
      (t'.orphan_clock ≡ join t.orphan_clock (t.thread_clocks tid))
      × ((u : ℕ)
          → u < k_max_threads
          → u ≢ tid
          → t.thread_alive u ≡ true
          → t'.thread_clocks u ≡ join (t.thread_clocks u) (t.thread_clocks tid))
      × ((u : ℕ) → (u ≡ tid) ⊎ (t.thread_alive u ≡ false) → t'.thread_clocks u ≡ t.thread_clocks u)
      × (t'.thread_alive ≡ t.thread_alive)
unfolding thread_finish
thread_finish-clocks t tid on h =
    let small : leb 64 tid ≡ false = ground arith in
    rw (on, small)
      (
        refl,
        λ u lt ne e.
            broadcast-reached t.thread_alive tid 64 0 u t.thread_clocks (omega arith) (omega arith)
              ne e,
        λ u out. broadcast-skip t.thread_alive tid 64 0 u t.thread_clocks out,
        refl,
      )
