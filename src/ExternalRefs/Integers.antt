-- ===== src/ExternalRefs/Integers.antt =====
-- Division, remainder and rotation of patches/v8/modified-files/src/wasm/wasm-external-refs.cc. An integer
-- of 64 bits is a number below 2^64, negative ones in two's complement.
use Prim.Native.Nat.{bit_or}
use webtsan.Prelude.{
  ℕ, ◌+◌, ◌-◌, ◌*◌, ◌/◌, ◌%◌, ◌^◌, ◌==◌, ◌&&◌, Bool, true, false, not, leb, if◌then◌else◌, u64, u32,
  uint32_max,
}
use webtsan.ExternalRefs.Bytes.{Memory, read_value, write_value}

abbrev pub is_negative : ℕ → Bool
is_negative n = leb (2 ^ 63) n

-- The absolute value, and a number with its sign.
abbrev pub magnitude : ℕ → ℕ
magnitude n = if is_negative n then 2 ^ 64 - n else n

abbrev pub signed : Bool → ℕ → ℕ
signed negative n = if negative then u64 (2 ^ 64 - n) else n

abbrev pub differ : Bool → Bool → Bool
differ true b = not b
differ false b = b

-- `/` and `%` of int64_t, which round towards zero.
unfoldable pub signed_div : ℕ → ℕ → ℕ
signed_div a b = signed (differ (is_negative a) (is_negative b)) (magnitude a / magnitude b)

unfoldable pub signed_mod : ℕ → ℕ → ℕ
signed_mod a b = signed (is_negative a) (magnitude a % magnitude b)

-- The memory, and the answer, an int32_t. Minus one is 2^32 - 1, or 2^64 - 1 among 64 bits.
unfoldable pub int64_div_wrapper : Memory → ℕ → Memory × ℕ
int64_div_wrapper m data_addr =
    let dividend = read_value 8 m data_addr in
    let divisor = read_value 8 m (data_addr + 8) in
    if divisor == 0
    then (m, 0)
    else if (divisor == 2 ^ 64 - 1) && (dividend == 2 ^ 63)
    then (m, uint32_max)
    else (write_value 8 m data_addr (signed_div dividend divisor), 1)

unfoldable pub int64_mod_wrapper : Memory → ℕ → Memory × ℕ
int64_mod_wrapper m data_addr =
    let dividend = read_value 8 m data_addr in
    let divisor = read_value 8 m (data_addr + 8) in
    if divisor == 0
    then (m, 0)
    else if (divisor == 2 ^ 64 - 1) && (dividend == 2 ^ 63)
    then (write_value 8 m data_addr 0, 1)
    else (write_value 8 m data_addr (signed_mod dividend divisor), 1)

unfoldable pub uint64_div_wrapper : Memory → ℕ → Memory × ℕ
uint64_div_wrapper m data_addr =
    let dividend = read_value 8 m data_addr in
    let divisor = read_value 8 m (data_addr + 8) in
    if divisor == 0 then (m, 0) else (write_value 8 m data_addr (dividend / divisor), 1)

unfoldable pub uint64_mod_wrapper : Memory → ℕ → Memory × ℕ
uint64_mod_wrapper m data_addr =
    let dividend = read_value 8 m data_addr in
    let divisor = read_value 8 m (data_addr + 8) in
    if divisor == 0 then (m, 0) else (write_value 8 m data_addr (dividend % divisor), 1)

-- The shifts of a word of `w` bits. `shift & (w - 1)` is a remainder, since `w` is a power of two, and `w - shift`
-- wraps as an uint32_t.
abbrev pub shift_left : ℕ → ℕ → ℕ → ℕ
shift_left w x k = (x * 2 ^ k) % 2 ^ w

abbrev pub shift_right : ℕ → ℕ → ℕ
shift_right x k = x / 2 ^ k

abbrev pub complement : ℕ → ℕ → ℕ
complement w shift = u32 (2 ^ 32 + w - shift % 2 ^ 32) % w

unfoldable pub word32_rol_wrapper : ℕ → ℕ → ℕ
word32_rol_wrapper input shift =
    bit_or (shift_left 32 input (shift % 32)) (shift_right input (complement 32 shift))

unfoldable pub word32_ror_wrapper : ℕ → ℕ → ℕ
word32_ror_wrapper input shift =
    bit_or (shift_right input (shift % 32)) (shift_left 32 input (complement 32 shift))

unfoldable pub word64_rol_wrapper : ℕ → ℕ → ℕ
word64_rol_wrapper input shift =
    bit_or (shift_left 64 input (shift % 64)) (shift_right input (complement 64 shift))

unfoldable pub word64_ror_wrapper : ℕ → ℕ → ℕ
word64_ror_wrapper input shift =
    bit_or (shift_right input (shift % 64)) (shift_left 64 input (complement 64 shift))
