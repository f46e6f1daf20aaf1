-- ===== src/Epochs.antt =====
-- The invariant of the clocks of
-- patches/chromium/new-files/third_party/blink/renderer/core/tsan/web_tsan.cc: nobody knows of an
-- epoch of a thread that the thread has not reached.
pub mod Clocks
pub mod Reset
use webtsan.Prelude.{
  ℕ, ◌+◌, ◌%◌, ◌^◌, ◌<◌, ◌≤◌, ◌≡◌, ◌≢◌, Bool, true, false, Option, some, none, arith, refl, sym,
  ◌∙◌, ap, subst, max, update, update_same, update_other, u64,
}
use native.Mathlib.Decide.{ℕ_discrete}
use webtsan.Clock.{VClock, k_max_threads, get, increment, join, zero_clock}
use webtsan.Clock.Order.{get-join, le-get-join_left}
use webtsan.Shadow.{ShadowCell, ShadowBuffer}
use webtsan.Shadow.Cells.{cell_at}
use webtsan.Detector.{WebTSan, web_tsan, join_thread, increment_thread}

-- The epoch that thread `i` has reached.
abbrev pub own : WebTSan → ℕ → ℕ
own t i = get (t.thread_clocks i) i

-- A clock knows of no epoch beyond those reached.
abbrev pub Within : WebTSan → VClock → Type 0
Within t c = (i : ℕ) → i < k_max_threads → get c i ≤ own t i

-- A valid cell is in the slot of its thread, and its epoch has been reached.
pub record CellIsReached (clocks : ℕ → VClock) (cell : ShadowCell) (slot : ℕ) : Type 0 where
  pub thread : cell.tid < k_max_threads
  pub slot_of_thread : cell.tid % 2 ≡ slot
  pub reached : cell.epoch ≤ get (clocks cell.tid) cell.tid

abbrev pub CellsAreReached : (ℕ → VClock) → ShadowBuffer → Type 0
CellsAreReached clocks b =
    (j c : ℕ) → c < 2 → (cell_at b j c).valid ≡ true → CellIsReached clocks (cell_at b j c) c

pub record EpochsAreReached (t : WebTSan) : Type 0 where
  pub next_small : t.next_tid < k_max_threads
  pub threads : (u : ℕ) → u < k_max_threads → Within t (t.thread_clocks u)
  pub orphan : Within t t.orphan_clock
  pub syncs : (a : ℕ) (c : VClock) → t.sync_clocks a ≡ some c → Within t c
  pub edges : (e : ℕ) (c : VClock) → t.hb_edges e ≡ some c → Within t c
  -- A slot that is free has left its last epoch in the orphan clock.
  pub retired :
      (i : ℕ) → i < k_max_threads → t.thread_alive i ≡ false → own t i ≤ get t.orphan_clock i
  pub sizes : (s : ℕ) (b : ShadowBuffer) → t.shadow_buffers s ≡ some b → b.byte_length < 2 ^ 63
  pub cells :
      (s : ℕ) (b : ShadowBuffer) → t.shadow_buffers s ≡ some b → CellsAreReached t.thread_clocks b

-- No thread is about to wrap its counter.
abbrev pub HasRoom : WebTSan → Type 0
HasRoom t = (i : ℕ) → i < k_max_threads → own t i + 1 < 2 ^ 64

pub Within-join : (t : WebTSan) (c d : VClock) → Within t c → Within t d → Within t (join c d)
Within-join t c d p q i h = omega (arith, get-join c d i h, p i h, q i h)

-- From one state to another in which each thread has reached as much, or more.
abbrev pub Grows : WebTSan → WebTSan → Type 0
Grows t t' = (i : ℕ) → i < k_max_threads → own t i ≤ own t' i

pub Within-Grows : (t t' : WebTSan) (c : VClock) → Grows t t' → Within t c → Within t' c
Within-Grows t t' c g p i h = omega (arith, g i h, p i h)

pub CellIsReached-Grows :
    (t t' : WebTSan) (cell : ShadowCell) (slot : ℕ)
    → Grows t t'
    → CellIsReached t.thread_clocks cell slot
    → CellIsReached t'.thread_clocks cell slot
CellIsReached-Grows t t' cell slot g p = record {
  thread = p.thread;
  slot_of_thread = p.slot_of_thread;
  reached = omega (arith, p.reached, g cell.tid p.thread);
}

-- The state of a detector that has just been made.
pub web_tsan-EpochsAreReached : EpochsAreReached web_tsan
web_tsan-EpochsAreReached = record {
  next_small = omega arith;
  threads = λ u lt i h. omega arith;
  orphan = λ i h. omega arith;
  syncs = λ a c e. cc;
  edges = λ a c e. cc;
  retired = λ i h e. omega arith;
  sizes = λ s b e. cc;
  cells = λ s b e. cc;
}

-- The clock of a thread is joined with a clock that knows of nothing beyond what is reached.
pub own-join_thread :
    (t : WebTSan) (tid : ℕ) (c : VClock)
    → tid < k_max_threads
    → Within t c
    → (i : ℕ) → own (join_thread t tid c) i ≡ own t i
own-join_thread t tid c h w i = elim (ℕ_discrete tid i) [
  | yes e ↦ ground (arith, get-join (t.thread_clocks tid) c tid h, w tid h)
  | no ne ↦ ground arith
]

-- The flags and the counter of suppressed accesses play no part.
pub EpochsAreReached-flags :
    (t : WebTSan) (on cb : Bool) (suppressed : ℕ)
    → EpochsAreReached t
    → EpochsAreReached
        (record t { enabled = on; race_callback = cb; accesses_suppressed = suppressed })
EpochsAreReached-flags t on cb suppressed v = record {
  next_small = v.next_small;
  threads = v.threads;
  orphan = v.orphan;
  syncs = v.syncs;
  edges = v.edges;
  retired = v.retired;
  sizes = v.sizes;
  cells = v.cells;
}
