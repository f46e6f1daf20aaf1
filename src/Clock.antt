-- ===== src/Clock.antt =====
-- `VClock` of patches/chromium/new-files/third_party/blink/renderer/core/tsan/web_tsan.h: one
-- uint64_t for each logical thread, compared and joined by loops over the array.
pub mod Order
use webtsan.Prelude.{ℕ, zero, suc, ◌+◌, Bool, true, false, ltb, if◌then◌else◌, update, u64}

abbrev pub k_max_threads : ℕ
k_max_threads = 64

-- `clk_`; only the indices below `k_max_threads` are entries of the array.
pub record VClock : Type 0 where
  pub clk : ℕ → ℕ

-- `VClock()`.
abbrev pub zero_clock : VClock
zero_clock = record { clk = λ _. 0 }

abbrev pub get : VClock → ℕ → ℕ
get c tid = c.clk tid

abbrev pub set : VClock → ℕ → ℕ → VClock
set c tid val = record { clk = update c.clk tid val }

abbrev pub increment : VClock → ℕ → VClock
increment c tid = set c tid (u64 (get c tid + 1))

-- The rounds left of the loop, and the index `i`.
happens_before_loop : ℕ → ℕ → VClock → VClock → Bool
happens_before_loop zero i c other = true
happens_before_loop (suc n) i c other =
    if ltb (other.clk i) (c.clk i) then false else happens_before_loop n (suc i) c other

unfoldable pub happens_before : VClock → VClock → Bool
unfolding happens_before_loop
happens_before c other = happens_before_loop k_max_threads 0 c other

-- The body of the loop: `if (other.clk_[i] > clk_[i]) clk_[i] = other.clk_[i];`.
join_at : ℕ → VClock → VClock → VClock
join_at i c other = if ltb (c.clk i) (other.clk i) then set c i (other.clk i) else c

join_loop : ℕ → ℕ → VClock → VClock → VClock
unfolding join_at
join_loop zero i c other = c
join_loop (suc n) i c other = join_loop n (suc i) (join_at i c other) other

unfoldable pub join : VClock → VClock → VClock
unfolding join_loop
join c other = join_loop k_max_threads 0 c other
