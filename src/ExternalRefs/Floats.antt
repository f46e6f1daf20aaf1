-- ===== src/ExternalRefs/Floats.antt =====
-- Conversions and roundings of floating-point numbers, of
-- patches/v8/modified-files/src/wasm/wasm-external-refs.cc. A number is the pattern of its bits; the
-- arithmetic of the machine and of `Float16` is a parameter. The branches of single compilers and systems
-- are not modelled.
use webtsan.Prelude.{ℕ, ◌+◌, ◌-◌, ◌^◌, Bool, if◌then◌else◌}
use webtsan.ExternalRefs.Bytes.{Memory, read_value, write_value}

-- What the machine does with the numbers of one format.
pub record FloatFormat : Type 0 where
  pub size : ℕ
  pub trunc : ℕ → ℕ
  pub floor : ℕ → ℕ
  pub ceil : ℕ → ℕ
  pub nearbyint : ℕ → ℕ
  pub from_int64 : ℕ → ℕ
  pub from_uint64 : ℕ → ℕ
  -- `IsValueInRangeForNumericType` and the cast, for int64_t and for uint64_t.
  pub fits_int64 : ℕ → Bool
  pub to_int64 : ℕ → ℕ
  pub fits_uint64 : ℕ → Bool
  pub to_uint64 : ℕ → ℕ
  pub is_nan : ℕ → Bool
  -- Less than 0.0, and at least the greatest uint64_t.
  pub below_zero : ℕ → Bool
  pub above_uint64 : ℕ → Bool

-- A function of the number at the address, in its place.
abbrev pub in_place : ℕ → ℕ → (ℕ → ℕ) → Memory → ℕ → Memory
in_place from_size to_size f m data_addr =
    write_value to_size m data_addr (f (read_value from_size m data_addr))

pub data Rounding : Type 0 where
  rounds_up : Rounding
  rounds_down : Rounding
  truncates : Rounding
  rounds_nearest : Rounding

pub data IntegerType : Type 0 where
  int64 : IntegerType
  uint64 : IntegerType

module _ (f : FloatFormat) where
  abbrev pub rounding_op : Rounding → ℕ → ℕ
  rounding_op rounds_up = f.ceil
  rounding_op rounds_down = f.floor
  rounding_op truncates = f.trunc
  rounding_op rounds_nearest = f.nearbyint

  -- The four roundings of f32 and of f64.
  unfoldable pub round_wrapper : Rounding → Memory → ℕ → Memory
  round_wrapper r m data_addr = in_place f.size f.size (rounding_op r) m data_addr

  unfoldable pub integer_to_float_wrapper : IntegerType → Memory → ℕ → Memory
  integer_to_float_wrapper int64 m data_addr = in_place 8 f.size f.from_int64 m data_addr
  integer_to_float_wrapper uint64 m data_addr = in_place 8 f.size f.from_uint64 m data_addr

  -- Whether a number fits into the type, and the number there.
  abbrev pub fits : IntegerType → ℕ → Bool
  fits int64 = f.fits_int64
  fits uint64 = f.fits_uint64

  abbrev pub converted : IntegerType → ℕ → ℕ
  converted int64 = f.to_int64
  converted uint64 = f.to_uint64

  -- The answer is 1 where the number fits.
  unfoldable pub float_to_integer_wrapper : IntegerType → Memory → ℕ → Memory × ℕ
  float_to_integer_wrapper t m data_addr =
      let input = read_value f.size m data_addr in
      if fits t input then (write_value 8 m data_addr (converted t input), 1) else (m, 0)

  -- The greatest and the least int64_t are 2^63 - 1 and 2^63.
  unfoldable pub saturated : IntegerType → ℕ → ℕ
  saturated int64 input =
      if f.fits_int64 input
      then f.to_int64 input
      else if f.is_nan input
      then 0
      else if f.below_zero input
      then 2 ^ 63
      else 2 ^ 63 - 1
  saturated uint64 input =
      if f.fits_uint64 input
      then f.to_uint64 input
      else if f.above_uint64 input
      then 2 ^ 64 - 1
      else 0

  unfoldable pub float_to_integer_sat_wrapper : IntegerType → Memory → ℕ → Memory
  unfolding saturated
  float_to_integer_sat_wrapper t m data_addr = in_place f.size 8 (saturated t) m data_addr

-- `math::pow` of the double at the address and the one behind it.
unfoldable pub float64_pow_wrapper : (ℕ → ℕ → ℕ) → Memory → ℕ → Memory
float64_pow_wrapper pow m data_addr =
    write_value 8 m data_addr (pow (read_value 8 m data_addr) (read_value 8 m (data_addr + 8)))

-- `Float16::ToFloat32` and `Float16::FromFloat32`.
module _ (to_float32 from_float32 : ℕ → ℕ) where
  unfoldable pub float16_to_float32_wrapper : Memory → ℕ → Memory
  float16_to_float32_wrapper m data_addr = in_place 2 4 to_float32 m data_addr

  unfoldable pub float32_to_float16_wrapper : Memory → ℕ → Memory
  float32_to_float16_wrapper m data_addr = in_place 4 2 from_float32 m data_addr
