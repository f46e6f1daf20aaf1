-- ===== src/Detection/Ordered.antt =====
-- Accesses that are ordered by a release and an acquire, by a message, or by the end of a thread, are not
-- reported.
use webtsan.Prelude.{
  ℕ, ◌<◌, ◌≤◌, ◌≡◌, ◌≢◌, Bool, true, some, none, arith, sym, Returns, update_same, find_or, subst,
}
use webtsan.Clock.{VClock, k_max_threads, get, join, zero_clock}
use webtsan.Clock.Order.{get-join, Le, Le-trans}
use webtsan.Shadow.{ShadowCell}
use webtsan.Shadow.Races.{Conflicts}
use webtsan.Detector.{WebTSan, join_thread}
use webtsan.Sync.{acquire, release, publish}
use webtsan.Sync.Results.{release-ok, acquire-ok}
use webtsan.Edges.{send_edge, receive_edge}
use webtsan.Edges.Results.{sent, received, send_edge-ok, receive_edge-ok}

-- The access of the cell is one that a clock knows of.
abbrev pub Knows : VClock → ShadowCell → Type 0
Knows c cell = (cell.tid < k_max_threads) × (cell.epoch ≤ get c cell.tid)

-- No access by `tid` conflicts with an access that `c` knows of.
abbrev pub Covers : WebTSan → ℕ → VClock → Type 0
Covers t tid c =
    (cell : ShadowCell) (is_write : Bool)
    → Knows c cell
    → ¬ Conflicts cell tid is_write (t.thread_clocks tid)

pub Covers-Le : (t : WebTSan) (tid : ℕ) (c : VClock) → Le c (t.thread_clocks tid) → Covers t tid c
Covers-Le t tid c h cell w (small, known) f = omega (arith, h cell.tid small, known, f.unordered)

pub Le-join_right : (c d : VClock) → Le d (join c d)
Le-join_right c d i h = omega (arith, get-join c d i h)

join_thread-Le :
    (t : WebTSan) (tid : ℕ) (c : VClock) → Le c ((join_thread t tid c).thread_clocks tid)
join_thread-Le t tid c =
    subst (Le c) (sym (update_same t.thread_clocks tid (join (t.thread_clocks tid) c)))
      (Le-join_right (t.thread_clocks tid) c)

-- While the detector is enabled and both threads have a slot: when one thread releases at an address
-- and then another acquires there, both calls return, and no later access of the second thread
-- conflicts with an access that the first had made or knew of when it released.
pub release-acquire_ordered :
    (t : WebTSan) (a b addr : ℕ)
    → t.enabled ≡ true
    → a < k_max_threads
    → b < k_max_threads
    → Returns
        (λ t1. Returns (λ t2. Covers t2 b (t.thread_clocks a)) (acquire t1 b addr))
        (release t a addr)
release-acquire_ordered t a b addr on ha hb = rw (release-ok t a addr on ha) (
    rw (acquire-ok t1 b addr on hb c (update_same t.sync_clocks addr (some c))) (
      Covers-Le (join_thread t1 b c) b (t.thread_clocks a) (
        Le-trans (t.thread_clocks a) c _ (Le-join_right _ (t.thread_clocks a))
          (join_thread-Le t1 b c))))
  where
    c : VClock
    c = join (find_or t.sync_clocks addr zero_clock) (t.thread_clocks a)

    t1 : WebTSan
    t1 = publish t a addr

-- While the detector is enabled, both threads have a slot and the next edge is not 0: when one thread sends
-- a message and another receives it, the calls of both return, the edge is used up, and no later
-- access of the receiver conflicts with one that the sender had made or knew of when it sent.
pub send_receive_ordered :
    (t : WebTSan) (a b : ℕ)
    → t.enabled ≡ true
    → a < k_max_threads
    → b < k_max_threads
    → t.next_edge_id ≢ 0
    → Returns
        (λ r.
          Returns
            (λ t2. Covers t2 b (t.thread_clocks a) × (t2.hb_edges r.1 ≡ none))
            (receive_edge r.0 b r.1))
        (send_edge t a)
send_receive_ordered t a b on ha hb ne = rw (send_edge-ok t a on ha) (
    rw
      (receive_edge-ok t1 b on hb t.next_edge_id (t.thread_clocks a) ne
        (update_same t.hb_edges t.next_edge_id (some (t.thread_clocks a))))
      (
        Covers-Le (received t1 b t.next_edge_id (t.thread_clocks a)) b (t.thread_clocks a)
            (join_thread-Le t1 b (t.thread_clocks a)),
        ground arith,
      ))
  where
    t1 : WebTSan
    t1 = sent t a
