-- ===== src/Detector.antt =====
-- The state of the class `WebTSan` of
-- patches/chromium/new-files/third_party/blink/renderer/core/tsan/web_tsan.{h,cc}:
-- the singleton with the clocks, the edges and the shadow of every buffer, and its plain members.
-- A method takes the state and returns the new one; it runs under the locks that it takes, so a run of
-- the program is a sequence of calls. Hash maps are functions into `Option`, arrays are functions,
-- and an index beyond an array is `undefined`.
use webtsan.Prelude.{
  ℕ, zero, suc, ◌+◌, Bool, true, false, Option, none, ltb, if◌then◌else◌, update, u64, Outcome,
  undefined,
}
use webtsan.Clock.{VClock, k_max_threads, zero_clock, increment, join}
use webtsan.Shadow.{ShadowBuffer}

pub record WebTSan : Type 0 where
  pub enabled : Bool
  pub thread_clocks : ℕ → VClock
  pub thread_alive : ℕ → Bool
  pub next_tid : ℕ
  pub orphan_clock : VClock
  pub sync_clocks : ℕ → Option VClock
  pub hb_edges : ℕ → Option VClock
  pub next_edge_id : ℕ
  pub shadow_buffers : ℕ → Option ShadowBuffer
  pub race_callback : Bool
  pub first_race_logged : Bool
  pub races_detected : ℕ
  pub accesses_checked : ℕ
  pub accesses_suppressed : ℕ
  pub reported_race_sites : ℕ → Bool

-- The constructor, with the initial values of the fields; `race_callback` tells whether one is set.
abbrev pub web_tsan : WebTSan
web_tsan = record {
  enabled = false;
  thread_clocks = λ _. zero_clock;
  thread_alive = λ _. false;
  next_tid = 0;
  orphan_clock = zero_clock;
  sync_clocks = λ _. none;
  hb_edges = λ _. none;
  next_edge_id = 1;
  shadow_buffers = λ _. none;
  race_callback = false;
  first_race_logged = false;
  races_detected = 0;
  accesses_checked = 0;
  accesses_suppressed = 0;
  reported_race_sites = λ _. false;
}

-- An access to `thread_clocks_[tid]` or `thread_alive_[tid]` comes before `k`.
abbrev pub at_index {ℓ} : {A : Type ℓ} → ℕ → Outcome A → Outcome A
at_index tid k = if ltb tid k_max_threads then k else undefined

-- `thread_clocks_[tid].Join(c)`.
abbrev pub join_thread : WebTSan → ℕ → VClock → WebTSan
join_thread t tid c = record t {
  thread_clocks = update t.thread_clocks tid (join (t.thread_clocks tid) c);
}

abbrev pub increment_thread : WebTSan → ℕ → WebTSan
increment_thread t tid = record t {
  thread_clocks = update t.thread_clocks tid (increment (t.thread_clocks tid) tid);
}

unfoldable pub enable : WebTSan → WebTSan
enable t = record t { enabled = true }

unfoldable pub disable : WebTSan → WebTSan
disable t = record t { enabled = false }

unfoldable pub set_race_callback : WebTSan → Bool → WebTSan
set_race_callback t cb = record t { race_callback = cb }

unfoldable pub increment_suppressed_count : WebTSan → WebTSan
increment_suppressed_count t = record t { accesses_suppressed = u64 (t.accesses_suppressed + 1) }

-- The loop of `Reset` over the threads, from `i`, with the rounds left.
unfoldable pub reset_threads : ℕ → ℕ → WebTSan → WebTSan
reset_threads zero i t = t
reset_threads (suc n) i t = reset_threads n (suc i) (record t {
  thread_clocks = update t.thread_clocks i zero_clock;
  thread_alive = update t.thread_alive i false;
})

unfoldable pub reset : WebTSan → WebTSan
reset t =
    let t' = reset_threads k_max_threads 0 t in
    record t' {
      next_tid = 0;
      sync_clocks = λ _. none;
      hb_edges = λ _. none;
      next_edge_id = 1;
      shadow_buffers = λ _. none;
      races_detected = 0;
      accesses_checked = 0;
      accesses_suppressed = 0;
      orphan_clock = zero_clock;
      reported_race_sites = λ _. false;
    }
