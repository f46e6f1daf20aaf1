-- ===== src/ExternalRefs/Simd/F16.antt =====
-- The wrappers on eight lanes of `Float16` and the conversions between vectors, of
-- patches/v8/modified-files/src/wasm/wasm-external-refs.cc.
use webtsan.Prelude.{ℕ, ◌+◌, ◌-◌, ◌*◌, ◌^◌, Bool, not, if◌then◌else◌}
use webtsan.ExternalRefs.Bytes.{Memory, read_value, write_value}
use webtsan.ExternalRefs.Simd.{
  k_simd128_size, lane_loop, simd_float_un_wrapper, simd_float16_bin_wrapper,
}

-- The arithmetic of `float`, and the conversions of `Float16`, on patterns of bits.
pub record Float32Arithmetic : Type 0 where
  pub to_float32 : ℕ → ℕ
  pub from_float32 : ℕ → ℕ
  pub abs : ℕ → ℕ
  pub negate : ℕ → ℕ
  pub sqrt : ℕ → ℕ
  pub ceilf : ℕ → ℕ
  pub floorf : ℕ → ℕ
  pub truncf : ℕ → ℕ
  pub nearbyintf : ℕ → ℕ
  pub equal : ℕ → ℕ → Bool
  pub less : ℕ → ℕ → Bool
  pub less_equal : ℕ → ℕ → Bool
  pub plus : ℕ → ℕ → ℕ
  pub minus : ℕ → ℕ → ℕ
  pub times : ℕ → ℕ → ℕ
  pub divided : ℕ → ℕ → ℕ
  pub js_min : ℕ → ℕ → ℕ
  pub js_max : ℕ → ℕ → ℕ
  pub std_min : ℕ → ℕ → ℕ
  pub std_max : ℕ → ℕ → ℕ
  pub is_nan : ℕ → Bool
  pub above_max_int16 : ℕ → Bool
  pub below_min_int16 : ℕ → Bool
  pub above_max_uint16 : ℕ → Bool
  pub below_zero : ℕ → Bool
  pub to_int16 : ℕ → ℕ
  pub to_uint16 : ℕ → ℕ
  pub from_int16 : ℕ → ℕ
  pub from_uint16 : ℕ → ℕ

-- The functions of the wrappers on eight lanes of `Float16`.
pub data F16Unary : Type 0 where
  f16_abs : F16Unary
  f16_neg : F16Unary
  f16_sqrt : F16Unary
  f16_ceil : F16Unary
  f16_floor : F16Unary
  f16_trunc : F16Unary
  f16_nearest_int : F16Unary

pub data F16Comparison : Type 0 where
  f16_eq : F16Comparison
  f16_ne : F16Comparison
  f16_lt : F16Comparison
  f16_le : F16Comparison

pub data F16Binary : Type 0 where
  f16_add : F16Binary
  f16_sub : F16Binary
  f16_mul : F16Binary
  f16_div : F16Binary
  f16_min : F16Binary
  f16_max : F16Binary
  f16_pmin : F16Binary
  f16_pmax : F16Binary

pub data F16Conversion : Type 0 where
  i16x8_sconvert_f16x8 : F16Conversion
  i16x8_uconvert_f16x8 : F16Conversion
  f16x8_sconvert_i16x8 : F16Conversion
  f16x8_uconvert_i16x8 : F16Conversion

pub data F16Fma : Type 0 where
  fused_add : F16Fma
  fused_subtract : F16Fma

-- An int16_t of minus one or zero.
abbrev pub mask16 : Bool → ℕ
mask16 b = if b then 2 ^ 16 - 1 else 0

module _ (f : Float32Arithmetic) where
  abbrev pub through : (ℕ → ℕ) → ℕ → ℕ
  through op a = f.from_float32 (op (f.to_float32 a))

  abbrev pub through₂ : (ℕ → ℕ → ℕ) → ℕ → ℕ → ℕ
  through₂ op a b = f.from_float32 (op (f.to_float32 a) (f.to_float32 b))

  abbrev pub compares : (ℕ → ℕ → Bool) → ℕ → ℕ → ℕ
  compares op a b = mask16 (op (f.to_float32 a) (f.to_float32 b))

  abbrev pub unary_op : F16Unary → ℕ → ℕ
  unary_op f16_abs = through f.abs
  unary_op f16_neg = through f.negate
  unary_op f16_sqrt = through f.sqrt
  unary_op f16_ceil = through f.ceilf
  unary_op f16_floor = through f.floorf
  unary_op f16_trunc = through f.truncf
  unary_op f16_nearest_int = through f.nearbyintf

  unfoldable pub f16x8_unary_wrapper : F16Unary → Memory → ℕ → Memory
  unfolding simd_float_un_wrapper
  f16x8_unary_wrapper op m base = simd_float_un_wrapper 2 (unary_op op) m base

  abbrev pub comparison_op : F16Comparison → ℕ → ℕ → ℕ
  comparison_op f16_eq = compares f.equal
  comparison_op f16_ne = compares (λ a b. not (f.equal a b))
  comparison_op f16_lt = compares f.less
  comparison_op f16_le = compares f.less_equal

  unfoldable pub f16x8_comparison_wrapper : F16Comparison → Memory → ℕ → Memory
  unfolding simd_float16_bin_wrapper
  f16x8_comparison_wrapper op m base = simd_float16_bin_wrapper (comparison_op op) m base

  abbrev pub binary_op : F16Binary → ℕ → ℕ → ℕ
  binary_op f16_add = through₂ f.plus
  binary_op f16_sub = through₂ f.minus
  binary_op f16_mul = through₂ f.times
  binary_op f16_div = through₂ f.divided
  binary_op f16_min = through₂ f.js_min
  binary_op f16_max = through₂ f.js_max
  binary_op f16_pmin = through₂ f.std_min
  binary_op f16_pmax = through₂ f.std_max

  unfoldable pub f16x8_binary_wrapper : F16Binary → Memory → ℕ → Memory
  unfolding simd_float16_bin_wrapper
  f16x8_binary_wrapper op m base = simd_float16_bin_wrapper (binary_op op) m base

  unfoldable pub convert_to_int_s : ℕ → ℕ
  convert_to_int_s val =
      let f32 = f.to_float32 val in
      if f.is_nan f32
      then 0
      else if f.above_max_int16 f32
      then 2 ^ 15 - 1
      else if f.below_min_int16 f32
      then 2 ^ 15
      else f.to_int16 f32

  unfoldable pub convert_to_int_u : ℕ → ℕ
  convert_to_int_u val =
      let f32 = f.to_float32 val in
      if f.is_nan f32
      then 0
      else if f.above_max_uint16 f32
      then 2 ^ 16 - 1
      else if f.below_zero f32
      then 0
      else f.to_uint16 f32

  abbrev pub convert_to_f16_s : ℕ → ℕ
  convert_to_f16_s val = f.from_float32 (f.from_int16 val)

  abbrev pub convert_to_f16_u : ℕ → ℕ
  convert_to_f16_u val = f.from_float32 (f.from_uint16 val)

  -- The four conversions, each on eight lanes.
  unfoldable pub convert_wrapper : F16Conversion → Memory → ℕ → Memory
  unfolding simd_float_un_wrapper convert_to_int_s convert_to_int_u
  convert_wrapper i16x8_sconvert_f16x8 m base = simd_float_un_wrapper 2 convert_to_int_s m base
  convert_wrapper i16x8_uconvert_f16x8 m base = simd_float_un_wrapper 2 convert_to_int_u m base
  convert_wrapper f16x8_sconvert_i16x8 m base = simd_float_un_wrapper 2 convert_to_f16_s m base
  convert_wrapper f16x8_uconvert_i16x8 m base = simd_float_un_wrapper 2 convert_to_f16_u m base

  -- All four lanes are read before the first is written.
  unfoldable pub f32x4_promote_low_f16x8_wrapper : Memory → ℕ → Memory
  f32x4_promote_low_f16x8_wrapper m base =
      let a = read_value 2 m base in
      let b = read_value 2 m (base + 2) in
      let c = read_value 2 m (base + 2 * 2) in
      let d = read_value 2 m (base + 3 * 2) in
      let m1 = write_value 4 m base (f.to_float32 a) in
      let m2 = write_value 4 m1 (base + 4) (f.to_float32 b) in
      let m3 = write_value 4 m2 (base + 2 * 4) (f.to_float32 c) in
      write_value 4 m3 (base + 3 * 4) (f.to_float32 d)

  -- The lanes are narrowed one after the other in the same buffer, and the rest becomes zero.
  abbrev pub demote_lane : ℕ → ℕ → Memory → ℕ
  demote_lane base i m = f.from_float32 (read_value 4 m (base + i * 4))

  unfoldable pub f16x8_demote_f32x4_zero_wrapper : ℕ → Memory → ℕ → Memory
  unfolding lane_loop
  f16x8_demote_f32x4_zero_wrapper zero16 m base =
      lane_loop 4 4 2 (λ _ _. zero16) base (lane_loop 4 0 2 (demote_lane base) base m)

  unfoldable pub f16x8_demote_f64x2_zero_wrapper : (ℕ → ℕ) → ℕ → Memory → ℕ → Memory
  unfolding lane_loop
  f16x8_demote_f64x2_zero_wrapper double_to_float16 zero16 m base =
      lane_loop 6 2 2 (λ _ _. zero16) base
        (lane_loop 2 0 2 (λ i k. double_to_float16 (read_value 8 k (base + i * 8))) base m)

  -- The three vectors stand one behind the other.
  abbrev pub fma_lane : (ℕ → ℕ → ℕ → ℕ) → ℕ → ℕ → Memory → ℕ
  fma_lane op base i m = f.from_float32 (
      op (f.to_float32 (read_value 2 m (base + i * 2)))
        (f.to_float32 (read_value 2 m (base + i * 2 + k_simd128_size)))
        (f.to_float32 (read_value 2 m (base + i * 2 + 2 * k_simd128_size))))

  abbrev pub qfma : ℕ → ℕ → ℕ → ℕ
  qfma a b c = f.plus (f.times a b) c

  abbrev pub qfms : ℕ → ℕ → ℕ → ℕ
  qfms a b c = f.plus (f.negate (f.times a b)) c

  abbrev pub fma_op : F16Fma → ℕ → ℕ → ℕ → ℕ
  fma_op fused_add = qfma
  fma_op fused_subtract = qfms

  unfoldable pub simd_float16_fma_wrapper : F16Fma → Memory → ℕ → Memory
  unfolding lane_loop
  simd_float16_fma_wrapper op m base = lane_loop 8 0 2 (fma_lane (fma_op op) base) base m
