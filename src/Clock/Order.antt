-- ===== src/Clock/Order.antt =====
-- `VClock::HappensBefore` is the order of the clocks as vectors, and `Join` its least upper bound.
use webtsan.Prelude.{
  ℕ, zero, suc, ◌+◌, ◌≤◌, ◌<◌, max, ◌≡◌, refl, ◌∙◌, ◌↔◌, ◌≢◌, true, arith, le→ltb,
}
use native.Mathlib.Decide.{dec_lt, ℕ_discrete}
use webtsan.Clock.{
  k_max_threads, VClock, get, happens_before_loop, happens_before, join_at, join_loop, join,
}

-- Every component is at most the other's.
abbrev pub Le : VClock → VClock → Type 0
Le c d = (i : ℕ) → i < k_max_threads → get c i ≤ get d i

happens_before_loop_sound :
    (n i : ℕ) (c d : VClock)
    → happens_before_loop n i c d ≡ true
    → (j : ℕ) → i ≤ j
    → j < i + n
    → get c j ≤ get d j
unfolding happens_before_loop
happens_before_loop_sound zero i c d h j lo hi = absurd (omega arith)
happens_before_loop_sound (suc n) i c d h j lo hi = elim (ℕ_discrete i j) [
  | yes e ↦ ground arith
  | no ne ↦ happens_before_loop_sound n (suc i) c d (ground arith) j (omega arith) (omega arith)
]

happens_before_loop_complete :
    (n i : ℕ) (c d : VClock)
    → ((j : ℕ) → j < i + n → get c j ≤ get d j)
    → happens_before_loop n i c d ≡ true
unfolding happens_before_loop
happens_before_loop_complete zero i c d h = refl
happens_before_loop_complete (suc n) i c d h =
    rw (le→ltb (get d i) (get c i) (h i (omega arith)))
      (happens_before_loop_complete n (suc i) c d (λ j lt. h j (omega arith)))

-- `HappensBefore` answers true exactly when each of the 64 components of the clock is at most the
-- other clock's.
pub happens_before-Le : (c d : VClock) → (happens_before c d ≡ true) ↔ Le c d
unfolding happens_before
happens_before-Le c d = (
  λ h i lt. happens_before_loop_sound 64 0 c d h i (omega arith) (omega arith),
  λ h. happens_before_loop_complete 64 0 c d (λ j lt. h j (omega arith)),
)

join_at-get_self : (i : ℕ) (c d : VClock) → get (join_at i c d) i ≡ max (get c i) (get d i)
unfolding join_at
join_at-get_self i c d = ground arith

join_at-get_ne : (i j : ℕ) (c d : VClock) → i ≢ j → get (join_at i c d) j ≡ get c j
unfolding join_at
join_at-get_ne i j c d ne = ground arith

join_loop-get_below : (n i : ℕ) (c d : VClock) (j : ℕ) → j < i → get (join_loop n i c d) j ≡ get c j
unfolding join_loop
join_loop-get_below zero i c d j h = refl
join_loop-get_below (suc n) i c d j h =
    join_loop-get_below n (suc i) (join_at i c d) d j (omega arith)
    ∙ join_at-get_ne i j c d (omega arith)

join_loop-get_above :
    (n i : ℕ) (c d : VClock) (j : ℕ) → i + n ≤ j → get (join_loop n i c d) j ≡ get c j
unfolding join_loop
join_loop-get_above zero i c d j h = refl
join_loop-get_above (suc n) i c d j h =
    join_loop-get_above n (suc i) (join_at i c d) d j (omega arith)
    ∙ join_at-get_ne i j c d (omega arith)

join_loop-get_in :
    (n i : ℕ) (c d : VClock) (j : ℕ)
    → i ≤ j
    → j < i + n
    → get (join_loop n i c d) j ≡ max (get c j) (get d j)
unfolding join_loop
join_loop-get_in zero i c d j lo hi = absurd (omega arith)
join_loop-get_in (suc n) i c d j lo hi = elim (ℕ_discrete i j) [
  | yes e ↦
      rw (← e)
        (join_loop-get_below n (suc i) (join_at i c d) d i (omega arith) ∙ join_at-get_self i c d)
  | no ne ↦
      rw (← join_at-get_ne i j c d ne)
        (join_loop-get_in n (suc i) (join_at i c d) d j (omega arith) (omega arith))
]

pub get-join :
    (c d : VClock) (j : ℕ) → j < k_max_threads → get (join c d) j ≡ max (get c j) (get d j)
unfolding join
get-join c d j h = join_loop-get_in 64 0 c d j (omega arith) (omega arith)

pub get-join_outside : (c d : VClock) (j : ℕ) → k_max_threads ≤ j → get (join c d) j ≡ get c j
unfolding join
get-join_outside c d j h = join_loop-get_above 64 0 c d j h

pub le-get-join_left : (c d : VClock) (j : ℕ) → get c j ≤ get (join c d) j
le-get-join_left c d j = elim (dec_lt j 64) [
  | yes h ↦ omega (arith, get-join c d j h)
  | no h ↦ omega (arith, get-join_outside c d j (omega arith))
]

-- `Join` makes the least clock that both clocks happen before: each of the two happens before it, and
-- it happens before every clock that they both happen before.
pub join_least :
    (c d : VClock)
    → (happens_before c (join c d) ≡ true)
      × (happens_before d (join c d) ≡ true)
      × ((e : VClock)
          → happens_before c e ≡ true
          → happens_before d e ≡ true
          → happens_before (join c d) e ≡ true)
join_least c d = (
  (happens_before-Le c (join c d)).1 (λ i h. omega (arith, get-join c d i h)),
  (happens_before-Le d (join c d)).1 (λ i h. omega (arith, get-join c d i h)),
  λ e hc hd. (happens_before-Le (join c d) e).1 λ i h.
      omega (
        arith,
        get-join c d i h,
        (happens_before-Le c e).0 hc i h,
        (happens_before-Le d e).0 hd i h,
      ),
)

-- What a join leads to is known without the loop.
pub Le-refl : (c : VClock) → Le c c
Le-refl c i h = omega arith

pub Le-trans : (c d e : VClock) → Le c d → Le d e → Le c e
Le-trans c d e p q i h = omega (arith, p i h, q i h)
