-- ===== src/Edges.antt =====
-- One-shot edges for messages, `HappensBefore` and `HappensAfter` of
-- patches/chromium/new-files/third_party/blink/renderer/core/tsan/web_tsan.cc.
pub mod Epochs
pub mod Results
use webtsan.Prelude.{
  ℕ, ◌+◌, not, ◌||◌, none, some, ◌==◌, if◌then◌else◌, insert, erase, u64, Outcome, ok,
}
use webtsan.Detector.{WebTSan, at_index, join_thread}

-- `HappensBefore`: the id of the edge, 0 while disabled.
unfoldable pub send_edge : WebTSan → ℕ → Outcome (WebTSan × ℕ)
send_edge t sender_tid =
    if not t.enabled
    then ok (t, 0)
    else at_index sender_tid (
        ok (
          record t {
            next_edge_id = u64 (t.next_edge_id + 1);
            hb_edges = insert t.hb_edges t.next_edge_id (t.thread_clocks sender_tid);
          },
          t.next_edge_id,
        ))

-- `HappensAfter`.
pub receive_edge : WebTSan → ℕ → ℕ → Outcome WebTSan
receive_edge t receiver_tid edge_id =
    if not t.enabled || edge_id == 0 then ok t else elim (t.hb_edges edge_id) [
      | none ↦ ok t
      | some c ↦ at_index receiver_tid (
          let t' = join_thread t receiver_tid c in
          ok (record t' { hb_edges = erase t'.hb_edges edge_id }))
    ]
