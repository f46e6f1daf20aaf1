-- ===== src/Threads/Epochs.antt =====
-- The creation of a thread in a free slot keeps the invariant of the epochs.
use webtsan.Prelude.{
  ℕ, ◌+◌, ◌<◌, ◌≤◌, ◌≡◌, ◌≢◌, true, false, not, arith, Returns, if-cases, ltb, ◌&&◌, update, ◌==◌,
  subst, max, uint32_max, ap,
}
use native.Mathlib.Decide.{ℕ_discrete}
use webtsan.Clock.{k_max_threads, get}
use webtsan.Shadow.Cells.{cell_at}
use webtsan.Detector.{WebTSan}
use webtsan.Epochs.{
  own, Within, EpochsAreReached, HasRoom, Grows, Within-Grows, CellIsReached-Grows,
}
use webtsan.Threads.{start_thread, thread_create}
use webtsan.Threads.Slots.{slot, thread_create-slot}
use webtsan.Threads.Create.{
  parent_clock, start_thread-own, start_thread-component, start_thread-other,
}

module _ (t : WebTSan) (v : EpochsAreReached t) where
  parent_clock-Within : (s p : ℕ) → Within t (parent_clock t s p)
  parent_clock-Within s p =
      if-cases (Within t)
        (not (p == uint32_max) && (ltb p k_max_threads && update t.thread_alive s true p))
        (λ e. v.threads p (ground arith)) (λ _ i h. omega arith)

  module _ (s p : ℕ) (h : s < k_max_threads) (dead : t.thread_alive s ≡ false)
      (room : HasRoom t) where
    abbrev pub started : WebTSan
    started = start_thread t s p

    pub own-started : own started s ≡ max (get (parent_clock t s p) s) (get t.orphan_clock s) + 1
    own-started =
        omega (arith, start_thread-own t s p h, parent_clock-Within s p s h, v.orphan s h, room s h)

    own-started_other : (i : ℕ) → s ≢ i → own started i ≡ own t i
    own-started_other i ne = ap (λ c. get c i) (start_thread-other t s p i ne)

    started-Grows : Grows t started
    started-Grows i lt = elim (ℕ_discrete s i) [
      | yes e ↦
          subst (λ x. own t x ≤ own started x) e (omega (arith, own-started, v.retired s h dead))
      | no ne ↦ omega (arith, own-started_other i ne)
    ]

    started-threads : (u : ℕ) → u < k_max_threads → Within started (started.thread_clocks u)
    started-threads u lt i lt' = elim (ℕ_discrete s u) [
      | no ne ↦
          rw (start_thread-other t s p u ne)
            (omega (arith, v.threads u lt i lt', started-Grows i lt'))
      | yes e ↦
          subst (λ x. get (started.thread_clocks x) i ≤ own started i) e
            (elim (ℕ_discrete s i) [
              | yes e' ↦
                  subst (λ x. get (started.thread_clocks s) x ≤ own started x) e' (omega arith)
              | no ne ↦ omega (
                arith,
                start_thread-component t s p i ne lt',
                parent_clock-Within s p i lt',
                v.orphan i lt',
                started-Grows i lt',
              )
            ])
    ]

    start_thread-EpochsAreReached : EpochsAreReached started
    unfolding start_thread
    start_thread-EpochsAreReached = record {
      next_small = omega arith;
      threads = started-threads;
      orphan = Within-Grows t started t.orphan_clock started-Grows v.orphan;
      syncs = λ a c e. Within-Grows t started c started-Grows (v.syncs a c e);
      edges = λ a c e. Within-Grows t started c started-Grows (v.edges a c e);
      retired = λ i lt e. elim (ℕ_discrete s i) [
        | yes same ↦ absurd (ground arith)
        | no ne ↦ rw (own-started_other i ne) (v.retired i lt (ground arith))
      ];
      sizes = v.sizes;
      cells = λ st b e j c lt ok.
          CellIsReached-Grows t started (cell_at b j c) c started-Grows (v.cells st b e j c lt ok);
    }

  -- `ThreadCreate` in a free slot.
  pub thread_create-EpochsAreReached :
      (p c : ℕ)
      → HasRoom t
      → c < k_max_threads
      → t.thread_alive c ≡ false
      → Returns (λ r. EpochsAreReached r.0) (thread_create t p)
  thread_create-EpochsAreReached p c room lt dead =
      let (e, small, free, _) = thread_create-slot t p v.next_small in
      rw e (start_thread-EpochsAreReached (slot t) p small (free c lt dead) room)
