-- ===== src/Edges/Epochs.antt =====
-- Sending and receiving an edge keeps the invariant of the epochs.
use webtsan.Prelude.{
  ℕ, ◌<◌, ◌≡◌, Option, some, not, arith, Returns, Option-cases, Bool-cases, if-cases, inl, inr,
  lt→ltb, insert, ◌||◌, ◌==◌, subst,
}
use native.Mathlib.Decide.{ℕ_discrete}
use webtsan.Clock.{VClock, k_max_threads}
use webtsan.Detector.{WebTSan, join_thread}
use webtsan.Epochs.{Within, EpochsAreReached}
use webtsan.Epochs.Clocks.{join_thread-EpochsAreReached}
use webtsan.Edges.{send_edge, receive_edge}

with_edges-EpochsAreReached :
    (t : WebTSan) (m : ℕ → Option VClock) (next : ℕ)
    → EpochsAreReached t
    → ((e : ℕ) (c : VClock) → m e ≡ some c → Within t c)
    → EpochsAreReached (record t { hb_edges = m; next_edge_id = next })
with_edges-EpochsAreReached t m next v w = record {
  next_small = v.next_small;
  threads = v.threads;
  orphan = v.orphan;
  syncs = v.syncs;
  edges = w;
  retired = v.retired;
  sizes = v.sizes;
  cells = v.cells;
}

module _ (t : WebTSan) (tid : ℕ) (v : EpochsAreReached t) (h : tid < k_max_threads) where
  pub send_edge-EpochsAreReached : Returns (λ r. EpochsAreReached r.0) (send_edge t tid)
  unfolding send_edge
  send_edge-EpochsAreReached =
      if-cases (Returns (λ r. EpochsAreReached r.0)) (not t.enabled) (λ _. v)
        (λ _. rw (lt→ltb tid 64 h) (with_edges-EpochsAreReached t _ _ v sent))
    where
      sent :
          (e : ℕ) (c : VClock)
          → insert t.hb_edges t.next_edge_id (t.thread_clocks tid) e ≡ some c
          → Within t c
      sent e c q = elim (ℕ_discrete t.next_edge_id e) [
        | yes same ↦
            let e' : t.thread_clocks tid ≡ c = ground arith in subst (Within t) e' (v.threads tid h)
        | no ne ↦ v.edges e c (ground arith)
      ]

  pub receive_edge-EpochsAreReached :
      (edge : ℕ) → Returns EpochsAreReached (receive_edge t tid edge)
  unfolding receive_edge
  receive_edge-EpochsAreReached edge = elim (Bool-cases (not t.enabled || edge == 0)) [
    | inl off ↦ simp off v
    | inr on ↦ elim (Option-cases (t.hb_edges edge)) [
      | inl e ↦ simp (on, e) v
      | inr (c, e) ↦
          simp (on, e, lt→ltb tid 64 h)
            (let j = join_thread-EpochsAreReached t tid v h c (v.edges edge c e) in
              with_edges-EpochsAreReached (join_thread t tid c) _ _ j
                (λ k d q. j.edges k d (ground arith)))
    ]
  ]
