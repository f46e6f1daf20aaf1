-- ===== src/Detection/Unordered.antt =====
-- Accesses that nothing orders are reported: a release ticks, so what follows it is not covered.
use webtsan.Prelude.{
  ℕ, ◌+◌, ◌<◌, ◌≤◌, ◌≡◌, ◌≢◌, Bool, true, some, arith, refl, Returns, update_same, find_or, ◌⊎◌,
  inl, inr, Option-cases,
}
use webtsan.Clock.{VClock, k_max_threads, get, join, zero_clock}
use webtsan.Clock.Order.{get-join}
use webtsan.Shadow.Cells.{access_cell}
use webtsan.Shadow.Races.{Conflicts}
use webtsan.Detector.{WebTSan, join_thread}
use webtsan.Epochs.{own, EpochsAreReached, HasRoom}
use webtsan.Sync.{acquire, release, publish}
use webtsan.Sync.Results.{release-ok, acquire-ok}

-- An access by `a` now conflicts with one by `b`, if one of them writes.
abbrev pub Reports : WebTSan → ℕ → ℕ → Type 0
Reports t a b =
    (w w' : Bool)
    → (w ≡ true) ⊎ (w' ≡ true)
    → Conflicts (access_cell a w (t.thread_clocks a)) b w' (t.thread_clocks b)

Reports-lt : (t : WebTSan) (a b : ℕ) → a ≢ b → get (t.thread_clocks b) a < own t a → Reports t a b
Reports-lt t a b ne lt w w' writes = record {
  occupied = refl;
  foreign = ne;
  writes = writes;
  unordered = lt;
}

module _ (t : WebTSan) (v : EpochsAreReached t) (room : HasRoom t) (a b addr : ℕ)
    (ha : a < k_max_threads) (hb : b < k_max_threads) (ne : a ≢ b) where
  own-publish : own (publish t a addr) a ≡ own t a + 1
  own-publish = let r = room a ha in ground arith

  known-publish : get ((publish t a addr).thread_clocks b) a ≤ own t a
  known-publish = ground (arith, v.threads b hb a ha)

  -- In a state whose epochs are reached, with room for one more epoch, while the detector is enabled:
  -- after a release by `a` the accesses of `a` conflict with those of `b` where one of the two writes,
  -- and they still do when `b` has acquired at the address of the release.
  pub release-Reports :
      t.enabled ≡ true
      → Returns
          (λ t1. Reports t1 a b × Returns (λ t2. Reports t2 a b) (acquire t1 b addr))
          (release t a addr)
  release-Reports on = rw (release-ok t a addr on ha) (
    Reports-lt t1 a b ne (omega (arith, own-publish, known-publish)),
    rw (acquire-ok t1 b addr on hb c (update_same t.sync_clocks addr (some c))) (
        Reports-lt (join_thread t1 b c) a b ne (
          ground
            (arith, own-publish, known-publish, get-join (t1.thread_clocks b) c a ha, published))),
  )
    where
      c : VClock
      c = join (find_or t.sync_clocks addr zero_clock) (t.thread_clocks a)

      t1 : WebTSan
      t1 = publish t a addr

      before : get (find_or t.sync_clocks addr zero_clock) a ≤ own t a
      before = elim (Option-cases (t.sync_clocks addr)) [
        | inl e ↦ rw (e, find_or) (omega arith)
        | inr (d, e) ↦ rw (e, find_or) (v.syncs addr d e a ha)
      ]

      published : get c a ≤ own t a
      published =
          omega (
            arith,
            get-join (find_or t.sync_clocks addr zero_clock) (t.thread_clocks a) a ha,
            before,
          )
