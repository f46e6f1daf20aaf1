-- ===== src/Epochs/Reset.antt =====
-- `Reset`.
use webtsan.Prelude.{ℕ, zero, suc, ◌+◌, ◌<◌, ◌≤◌, ◌≡◌, refl, false, none, arith, ap}
use native.Mathlib.Decide.{ℕ_discrete}
use webtsan.Clock.{k_max_threads, get, zero_clock}
use webtsan.Detector.{WebTSan, web_tsan, reset, reset_threads}
use webtsan.Epochs.{EpochsAreReached}

-- The slots are as in a new detector.
abbrev pub SlotIsFresh : WebTSan → ℕ → Type 0
SlotIsFresh t i = (t.thread_clocks i ≡ zero_clock) × (t.thread_alive i ≡ false)

-- Two detectors that differ in the slots alone.
abbrev pub with_slots_of : WebTSan → WebTSan → WebTSan
with_slots_of t u = record t { thread_clocks = u.thread_clocks; thread_alive = u.thread_alive }

reset_threads-rest :
    (n i : ℕ) (t : WebTSan) → reset_threads n i t ≡ with_slots_of t (reset_threads n i t)
unfolding reset_threads
reset_threads-rest zero i t = refl
reset_threads-rest (suc n) i t = reset_threads-rest n (suc i) _

reset_threads-kept :
    (n i : ℕ) (t : WebTSan) (j : ℕ) → j < i → SlotIsFresh t j → SlotIsFresh (reset_threads n i t) j
unfolding reset_threads
reset_threads-kept zero i t j h p = p
reset_threads-kept (suc n) i t j h p = reset_threads-kept n (suc i) _ j (omega arith) (ground arith)

reset_threads-reached :
    (n i : ℕ) (t : WebTSan) (j : ℕ) → i ≤ j → j < i + n → SlotIsFresh (reset_threads n i t) j
unfolding reset_threads
reset_threads-reached zero i t j lo hi = absurd (omega arith)
reset_threads-reached (suc n) i t j lo hi = elim (ℕ_discrete i j) [
  | yes e ↦ reset_threads-kept n (suc i) _ j (omega arith) (ground arith)
  | no ne ↦ reset_threads-reached n (suc i) _ j (omega arith) (omega arith)
]

-- What `Reset` does after the loop over the slots.
abbrev cleared : WebTSan → WebTSan
cleared t = record t {
  next_tid = 0;
  sync_clocks = λ _. none;
  hb_edges = λ _. none;
  next_edge_id = 1;
  shadow_buffers = λ _. none;
  races_detected = 0;
  accesses_checked = 0;
  accesses_suppressed = 0;
  orphan_clock = zero_clock;
  reported_race_sites = λ _. false;
}

-- After `Reset` each of the 64 slots is fresh, and all else is as in a new detector, but for what `Reset`
-- keeps: whether the detector is enabled, the callback, and whether a first race has been logged.
pub reset-web_tsan :
    (t : WebTSan)
    → (reset t
        ≡ with_slots_of
            (record web_tsan {
              enabled = t.enabled;
              race_callback = t.race_callback;
              first_race_logged = t.first_race_logged;
            })
            (reset t))
      × ((i : ℕ) → i < k_max_threads → SlotIsFresh (reset t) i)
unfolding reset
reset-web_tsan t = (
  ap cleared (reset_threads-rest 64 0 t),
  λ i h. reset_threads-reached 64 0 t i (omega arith) (omega arith),
)

reset_clock : (t : WebTSan) (u i : ℕ) → u < k_max_threads → get ((reset t).thread_clocks u) i ≡ 0
reset_clock t u i lt = ap (λ c. get c i) ((reset-web_tsan t).1 u lt).0

-- No clock knows of any epoch after it.
pub reset-EpochsAreReached : (t : WebTSan) → EpochsAreReached (reset t)
reset-EpochsAreReached t = rw (reset-web_tsan t).0 (record {
  next_small = omega arith;
  threads = λ u lt i lt'. rw (reset_clock t u i lt) (omega arith);
  orphan = λ i lt. omega arith;
  syncs = λ a c e. cc;
  edges = λ e c q. cc;
  retired = λ i lt e. rw (reset_clock t i i lt) (omega arith);
  sizes = λ s b e. cc;
  cells = λ s b e. cc;
})
