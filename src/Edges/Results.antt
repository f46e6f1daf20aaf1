-- ===== src/Edges/Results.antt =====
-- What sending and receiving an edge return, while the detector is enabled and the thread has a slot.
use webtsan.Prelude.{ℕ, ◌+◌, ◌<◌, ◌≡◌, ◌≢◌, true, some, none, arith, ok, lt→ltb, insert, erase, u64}
use webtsan.Clock.{VClock, k_max_threads}
use webtsan.Detector.{WebTSan, join_thread}
use webtsan.Edges.{send_edge, receive_edge}

abbrev pub sent : WebTSan → ℕ → WebTSan
sent t tid = record t {
  next_edge_id = u64 (t.next_edge_id + 1);
  hb_edges = insert t.hb_edges t.next_edge_id (t.thread_clocks tid);
}

abbrev pub received : WebTSan → ℕ → ℕ → VClock → WebTSan
received t tid edge c = record (join_thread t tid c) { hb_edges = erase t.hb_edges edge }

module _ (t : WebTSan) (tid : ℕ) (on : t.enabled ≡ true) (h : tid < k_max_threads) where
  pub send_edge-ok : send_edge t tid ≡ ok (sent t tid, t.next_edge_id)
  unfolding send_edge
  send_edge-ok = ground (arith, lt→ltb tid 64 h)

  pub receive_edge-ok :
      (edge : ℕ) (c : VClock)
      → edge ≢ 0
      → t.hb_edges edge ≡ some c
      → receive_edge t tid edge ≡ ok (received t tid edge c)
  unfolding receive_edge
  receive_edge-ok edge c ne e = ground (arith, lt→ltb tid 64 h)

  pub receive_edge_unknown : (edge : ℕ) → t.hb_edges edge ≡ none → receive_edge t tid edge ≡ ok t
  unfolding receive_edge
  receive_edge_unknown edge e = ground arith
