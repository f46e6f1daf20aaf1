-- ===== src/Detection/Missed.antt =====
-- Races that are not reported: sending a message and creating a thread publish the clock of the caller
-- without a tick, so what the caller does next is covered too.
use webtsan.Prelude.{ℕ, ◌≤◌, ◌≡◌, Bool}
use webtsan.Clock.{get}
use webtsan.Shadow.Cells.{access_cell}
use webtsan.Shadow.Races.{Conflicts}
use webtsan.Detector.{WebTSan}
use webtsan.Epochs.{own}

-- An access by `a` now conflicts with no access by `b`, whatever the two do.
abbrev pub Misses : WebTSan → ℕ → ℕ → Type 0
Misses t a b =
    (w w' : Bool) → ¬ Conflicts (access_cell a w (t.thread_clocks a)) b w' (t.thread_clocks b)

-- `later` is what happens afterwards: `a` does not tick, and `b` forgets nothing that it knows of `a`.
abbrev pub NoTick : (WebTSan → WebTSan) → ℕ → ℕ → Type 0
NoTick later a b =
    (t : WebTSan)
    → (own (later t) a ≡ own t a) × (get (t.thread_clocks b) a ≤ get ((later t).thread_clocks b) a)
