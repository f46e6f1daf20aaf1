-- ===== src/ExternalRefs/Simd.antt =====
-- The loops over the lanes of a vector of 16 bytes, of
-- patches/v8/modified-files/src/wasm/wasm-external-refs.cc, with the operations on lanes as parameters.
pub mod F16
pub mod Lanes
pub mod InPlace
use webtsan.Prelude.{ℕ, zero, suc, ◌+◌, ◌-◌, ◌*◌, ◌/◌, ◌^◌, Bool, not, if◌then◌else◌}
use webtsan.ExternalRefs.Floats.{FloatFormat, Rounding, rounding_op}
use webtsan.ExternalRefs.Bytes.{Memory, read_value, write_value}

-- `kSimd128Size`.
abbrev pub k_simd128_size : ℕ
k_simd128_size = 16

-- The loop from lane `i`, with the rounds left: a lane gets the value that the memory has for it then.
unfoldable pub lane_loop : ℕ → ℕ → ℕ → (ℕ → Memory → ℕ) → ℕ → Memory → Memory
lane_loop zero i size value base m = m
lane_loop (suc n) i size value base m =
    lane_loop n (suc i) size value base (write_value size m (base + i * size) (value i m))

-- An operation on each lane, of one size before and after.
abbrev pub un_lane : ℕ → (ℕ → ℕ) → ℕ → ℕ → Memory → ℕ
un_lane size op base i m = op (read_value size m (base + i * size))

unfoldable pub simd_float_un_wrapper : ℕ → (ℕ → ℕ) → Memory → ℕ → Memory
simd_float_un_wrapper size op m base =
    lane_loop (k_simd128_size / size) 0 size (un_lane size op base) base m

-- The roundings of f64x2 and of f32x4.
unfoldable pub simd_float_round_wrapper : FloatFormat → Rounding → Memory → ℕ → Memory
unfolding simd_float_un_wrapper
simd_float_round_wrapper f r m base = simd_float_un_wrapper f.size (rounding_op f r) m base

-- An operation on the lanes of two vectors, the second behind the first.
abbrev pub bin_lane : (ℕ → ℕ → ℕ) → ℕ → ℕ → Memory → ℕ
bin_lane op base i m =
    op (read_value 2 m (base + i * 2)) (read_value 2 m (base + k_simd128_size + i * 2))

unfoldable pub simd_float16_bin_wrapper : (ℕ → ℕ → ℕ) → Memory → ℕ → Memory
simd_float16_bin_wrapper op m base = lane_loop 8 0 2 (bin_lane op base) base m
