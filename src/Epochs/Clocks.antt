-- ===== src/Epochs/Clocks.antt =====
-- The changes of thread clocks that keep the invariant: a join with a clock that knows of nothing
-- beyond what is reached, a tick of a live thread, and what `Release` does of both.
use webtsan.Prelude.{
  ℕ, ◌+◌, ◌<◌, ◌≤◌, ◌≡◌, ◌≢◌, true, false, arith, subst, update, insert, find_or, Option-cases, inl,
  inr,
}
use native.Mathlib.Decide.{ℕ_discrete}
use webtsan.Clock.{VClock, k_max_threads, increment, join, zero_clock}
use webtsan.Shadow.Cells.{cell_at}
use webtsan.Detector.{WebTSan, join_thread, increment_thread}
use webtsan.Epochs.{
  own, Within, EpochsAreReached, HasRoom, Within-join, Grows, Within-Grows, CellIsReached-Grows,
  own-join_thread,
}

abbrev pub with_clocks : WebTSan → (ℕ → VClock) → WebTSan
with_clocks t k = record t { thread_clocks = k }

pub with_clocks-EpochsAreReached :
    (t : WebTSan) (k : ℕ → VClock)
    → EpochsAreReached t
    → Grows t (with_clocks t k)
    → ((u : ℕ) → u < k_max_threads → Within (with_clocks t k) (k u))
    → ((i : ℕ) → i < k_max_threads → t.thread_alive i ≡ false → own (with_clocks t k) i ≤ own t i)
    → EpochsAreReached (with_clocks t k)
with_clocks-EpochsAreReached t k v g w r = record {
  next_small = v.next_small;
  threads = w;
  orphan = Within-Grows t (with_clocks t k) t.orphan_clock g v.orphan;
  syncs = λ a c e. Within-Grows t (with_clocks t k) c g (v.syncs a c e);
  edges = λ a c e. Within-Grows t (with_clocks t k) c g (v.edges a c e);
  retired = λ i h e. omega (arith, r i h e, v.retired i h e);
  sizes = v.sizes;
  cells = λ s b e j c lt ok.
      CellIsReached-Grows t (with_clocks t k) (cell_at b j c) c g (v.cells s b e j c lt ok);
}

module _ (t : WebTSan) (tid : ℕ) (v : EpochsAreReached t) (h : tid < k_max_threads) where
  pub join_thread-EpochsAreReached :
      (c : VClock) → Within t c → EpochsAreReached (join_thread t tid c)
  join_thread-EpochsAreReached c w =
      with_clocks-EpochsAreReached t (update t.thread_clocks tid (join (t.thread_clocks tid) c)) v
        (λ i lt. omega (arith, own-join_thread t tid c h w i))
        (λ u lt i lt'. elim (ℕ_discrete tid u) [
          | yes e ↦ ground (
            arith,
            own-join_thread t tid c h w i,
            Within-join t (t.thread_clocks tid) c (v.threads tid h) w i lt',
          )
          | no ne ↦ ground (arith, own-join_thread t tid c h w i, v.threads u lt i lt')
        ])
        (λ i lt e. omega (arith, own-join_thread t tid c h w i))

  own-increment_thread : HasRoom t → own (increment_thread t tid) tid ≡ own t tid + 1
  own-increment_thread room = let r = room tid h in ground arith

  own-increment_other : (i : ℕ) → tid ≢ i → own (increment_thread t tid) i ≡ own t i
  own-increment_other i ne = ground arith

  pub increment_thread-Grows : HasRoom t → Grows t (increment_thread t tid)
  increment_thread-Grows room i lt = elim (ℕ_discrete tid i) [
    | yes e ↦ ground (arith, own-increment_thread room)
    | no ne ↦ omega (arith, own-increment_other i ne)
  ]

  pub increment_thread-EpochsAreReached :
      HasRoom t → t.thread_alive tid ≡ true → EpochsAreReached (increment_thread t tid)
  increment_thread-EpochsAreReached room alive =
      with_clocks-EpochsAreReached t
        (update t.thread_clocks tid (increment (t.thread_clocks tid) tid)) v
        (increment_thread-Grows room)
        (λ u lt i lt'. elim (ℕ_discrete tid u) [
          | yes e ↦ elim (ℕ_discrete tid i) [
            | yes e' ↦ ground arith
            | no ne ↦ ground (arith, v.threads tid h i lt')
          ]
          | no ne ↦ ground (arith, v.threads u lt i lt', increment_thread-Grows room i lt')
        ])
        (λ i lt e. elim (ℕ_discrete tid i) [
          | yes same ↦ cc (subst (λ x. t.thread_alive x ≡ true) same alive)
          | no ne ↦ omega (arith, own-increment_other i ne)
        ])

  -- A sync clock is joined with the clock of a thread.
  pub insert_sync-EpochsAreReached :
      (a : ℕ)
      → EpochsAreReached (record t {
        sync_clocks =
            insert t.sync_clocks a
              (join (find_or t.sync_clocks a zero_clock) (t.thread_clocks tid));
      })
  insert_sync-EpochsAreReached a = record {
    next_small = v.next_small;
    threads = v.threads;
    orphan = v.orphan;
    syncs = λ k c e. elim (ℕ_discrete a k) [
      | yes same ↦
          let e' : join (find_or t.sync_clocks a zero_clock) (t.thread_clocks tid) ≡ c =
            ground arith in
          subst (Within t) e' (Within-join t _ _ (found a) (v.threads tid h))
      | no ne ↦ v.syncs k c (ground arith)
    ];
    edges = v.edges;
    retired = v.retired;
    sizes = v.sizes;
    cells = v.cells;
  }
    where
      found : (k : ℕ) → Within t (find_or t.sync_clocks k zero_clock)
      found k = elim (Option-cases (t.sync_clocks k)) [
        | inl e ↦ rw (e, find_or) (λ i lt. omega arith)
        | inr (c, e) ↦ rw (e, find_or) (v.syncs k c e)
      ]
