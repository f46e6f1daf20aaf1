-- ===== src/Threads/Ending.antt =====
-- The calls that end or merge threads keep the invariant of the epochs: finish, destroy, absorb, and a
-- join of a thread that has been finished.
use webtsan.Prelude.{
  ℕ, ◌<◌, ◌≤◌, ◌≡◌, Bool, true, false, not, arith, Returns, Bool-cases, if-cases, inl, inr, lt→ltb,
  leb, ◌||◌, update, ◌==◌, subst,
}
use native.Mathlib.Decide.{ℕ_discrete}
use webtsan.Clock.{VClock, k_max_threads, get, join}
use webtsan.Clock.Order.{get-join, le-get-join_left}
use webtsan.Detector.{WebTSan, join_thread}
use webtsan.Epochs.{own, Within, EpochsAreReached, Within-join, own-join_thread}
use webtsan.Epochs.Clocks.{with_clocks, with_clocks-EpochsAreReached, join_thread-EpochsAreReached}
use webtsan.Threads.{thread_finish, thread_destroy, thread_join, thread_absorb, broadcast}
use webtsan.Threads.Finish.{broadcast_cases}

-- The orphan clock grows, and every thread that is no longer alive has left its epoch there.
orphan-EpochsAreReached :
    (t : WebTSan) (o : VClock) (alive : ℕ → Bool)
    → EpochsAreReached t
    → Within t o
    → ((i : ℕ) → i < k_max_threads → alive i ≡ false → own t i ≤ get o i)
    → EpochsAreReached (record t { orphan_clock = o; thread_alive = alive })
orphan-EpochsAreReached t o alive v w r = record {
  next_small = v.next_small;
  threads = v.threads;
  orphan = w;
  syncs = v.syncs;
  edges = v.edges;
  retired = r;
  sizes = v.sizes;
  cells = v.cells;
}

module _ (t : WebTSan) (v : EpochsAreReached t) where
  module _ (tid : ℕ) (h : tid < k_max_threads) where
    abbrev joined_orphan : VClock
    joined_orphan = join t.orphan_clock (t.thread_clocks tid)

    joined_orphan-Within : Within t joined_orphan
    joined_orphan-Within =
        Within-join t t.orphan_clock (t.thread_clocks tid) v.orphan (v.threads tid h)

    broadcast-get_le :
        (u i : ℕ)
        → u < k_max_threads
        → i < k_max_threads
        → (get (broadcast k_max_threads 0 t.thread_alive tid t.thread_clocks u) i ≤ own t i)
          × (get (t.thread_clocks u) i
              ≤ get (broadcast k_max_threads 0 t.thread_alive tid t.thread_clocks u) i)
    broadcast-get_le u i lt lt' = elim (broadcast_cases t.thread_alive tid t.thread_clocks u lt) [
      | inl e ↦ rw e (v.threads u lt i lt', omega arith)
      | inr e ↦ rw e (
        Within-join t (t.thread_clocks u) (t.thread_clocks tid) (v.threads u lt) (v.threads tid h) i
            lt',
        le-get-join_left (t.thread_clocks u) (t.thread_clocks tid) i,
      )
    ]

    pub thread_finish-EpochsAreReached : EpochsAreReached (thread_finish t tid)
    unfolding thread_finish
    thread_finish-EpochsAreReached =
        if-cases EpochsAreReached (not t.enabled) (λ _. v)
          (λ _.
            if-cases EpochsAreReached (leb k_max_threads tid) (λ _. v)
              (λ _.
                let k = broadcast k_max_threads 0 t.thread_alive tid t.thread_clocks in
                let w =
                  with_clocks-EpochsAreReached t k v (λ i lt. (broadcast-get_le i i lt lt).1)
                    (λ u lt i lt'.
                      omega (arith, broadcast-get_le u i lt lt', broadcast-get_le i i lt' lt'))
                    (λ i lt _. (broadcast-get_le i i lt lt).0) in
                orphan-EpochsAreReached (with_clocks t k) joined_orphan t.thread_alive w
                  (λ i lt. omega (arith, joined_orphan-Within i lt, broadcast-get_le i i lt lt))
                  (λ i lt e. omega (
                    arith,
                    w.retired i lt e,
                    le-get-join_left t.orphan_clock (t.thread_clocks tid) i,
                  ))))

    -- While the detector is enabled.
    pub thread_destroy-EpochsAreReached :
        t.enabled ≡ true → Returns EpochsAreReached (thread_destroy t tid)
    unfolding thread_destroy
    thread_destroy-EpochsAreReached on =
        if-cases (Returns EpochsAreReached) t.enabled
          (λ _. rw (lt→ltb tid 64 h) (elim (Bool-cases (t.thread_alive tid)) [
            | inl alive ↦ rw alive (
                orphan-EpochsAreReached t joined_orphan (update t.thread_alive tid false) v
                  joined_orphan-Within
                  (λ i lt e. elim (ℕ_discrete tid i) [
                    | yes same ↦
                        subst (λ x. own t x ≤ get joined_orphan x) same
                          (omega (arith, get-join t.orphan_clock (t.thread_clocks tid) tid h))
                    | no ne ↦ omega (
                      arith,
                      v.retired i lt (ground arith),
                      le-get-join_left t.orphan_clock (t.thread_clocks tid) i,
                    )
                  ]))
            | inr dead ↦ rw dead (
                orphan-EpochsAreReached t t.orphan_clock (update t.thread_alive tid false) v
                  v.orphan (λ i lt e. v.retired i lt (ground arith)))
          ]))
          (λ off. cc)

  module _ (dst src : ℕ) (hd : dst < k_max_threads) (hs : src < k_max_threads) where
    merged : EpochsAreReached (join_thread t dst (t.thread_clocks src))
    merged = join_thread-EpochsAreReached t dst v hd (t.thread_clocks src) (v.threads src hs)

    pub thread_absorb-EpochsAreReached : Returns EpochsAreReached (thread_absorb t dst src)
    unfolding thread_absorb
    thread_absorb-EpochsAreReached =
        if-cases (Returns EpochsAreReached) (not t.enabled) (λ _. v)
          (λ _.
            if-cases (Returns EpochsAreReached) (leb k_max_threads dst || leb k_max_threads src)
              (λ _. v)
              (λ _.
                if-cases (Returns EpochsAreReached) (dst == src) (λ _. v)
                  (λ _. rw (lt→ltb dst 64 hd, lt→ltb src 64 hs) merged)))

    -- The child has left its epoch in the orphan clock, as `ThreadFinish` does.
    pub thread_join-EpochsAreReached :
        own t src ≤ get t.orphan_clock src → Returns EpochsAreReached (thread_join t dst src)
    unfolding thread_join
    thread_join-EpochsAreReached left =
        if-cases (Returns EpochsAreReached) (not t.enabled) (λ _. v)
          (λ _.
            if-cases (Returns EpochsAreReached) (leb k_max_threads dst || leb k_max_threads src)
              (λ _. v)
              (λ _.
                rw (lt→ltb dst 64 hd, lt→ltb src 64 hs)
                  (orphan-EpochsAreReached (join_thread t dst (t.thread_clocks src)) t.orphan_clock
                    (update t.thread_alive src false) merged merged.orphan
                    (λ i lt e. elim (ℕ_discrete src i) [
                      | yes same ↦
                          subst
                            (λ x.
                              own (join_thread t dst (t.thread_clocks src)) x
                              ≤ get t.orphan_clock x)
                            same
                            (rw
                              (own-join_thread t dst (t.thread_clocks src) hd (v.threads src hs)
                                src)
                              left)
                      | no ne ↦ merged.retired i lt (ground arith)
                    ]))))
