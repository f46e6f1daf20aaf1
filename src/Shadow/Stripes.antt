-- ===== src/Shadow/Stripes.antt =====
-- The lock of a byte.
use native.Mathlib.Nat.{mod-lt}
use webtsan.Prelude.{ℕ, ◌+◌, ◌/◌, ◌<◌, ◌≤◌, ◌^◌, ◌≡◌, ◌≢◌, arith, u64}
use webtsan.Shadow.{shadow_buffer, stripe_index}

-- For a buffer that is not empty, below 2^64 - 63 bytes: the index of the lock of any byte is below the
-- number of locks, which is at most 65536, and two bytes of one block of 64 bytes share their lock.
pub stripe_index-shadow_buffer :
    (backing_store byte_length byte : ℕ)
    → byte_length ≢ 0
    → byte_length + 63 < 2 ^ 64
    → let b = shadow_buffer backing_store byte_length in
      (stripe_index b byte < b.stripes)
      × (b.stripes ≤ 65536)
      × ((other : ℕ) → other / 64 ≡ byte / 64 → stripe_index b other ≡ stripe_index b byte)
unfolding stripe_index shadow_buffer
stripe_index-shadow_buffer s len byte some_bytes fits =
    let e : u64 (len + 63) ≡ len + 63 = omega arith in
    rw e (mod-lt (byte / 64) (omega arith), omega arith, λ other same. rw same)
