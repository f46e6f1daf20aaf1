-- ===== src/Examples/ExternalRefs.antt =====
-- Instances of the theorems on the functions that compiled WebAssembly calls, and tests of these functions.
use webtsan.Prelude.{
  ℕ, ◌+◌, ◌*◌, ◌%◌, ◌^◌, ◌==◌, ◌≡◌, refl, true, false, inl, ◌-◌, not, ok, arith, Returns, leb,
}
use webtsan.ExternalRefs.Bytes.{Memory, read_value, write_value, move_bytes}
use webtsan.ExternalRefs.Integers.{
  int64_div_wrapper, word32_rol_wrapper, word32_ror_wrapper, word64_rol_wrapper, word64_ror_wrapper,
  signed_div, signed_mod,
}
use webtsan.ExternalRefs.Simd.F16.{Float32Arithmetic, f16x8_demote_f32x4_zero_wrapper}
use webtsan.ExternalRefs.Simd.InPlace.{f16x8_demote_f32x4_zero_wrapper-lane}
use webtsan.ExternalRefs.Arrays.{
  array_copy_wrapper, array_fill_wrapper, k_i32, ValueKind, Heap, numbers, copy_bytes,
}
use webtsan.ExternalRefs.Arrays.Elements.{HasElements}
use webtsan.ExternalRefs.Arrays.Fill.{unit_of, array_fill_wrapper-HasElements}
use webtsan.ExternalRefs.Arrays.Copy.{array_copy_wrapper-ok, MovesReferences, copy_bytes-ok}
use webtsan.ExternalRefs.CentralStack.{StackState}
use webtsan.Bulk.Segments.{Instance, memory_init_wrapper, data_drop_wrapper, memory_init-data_drop}

-- -7 by 2 is -3, and -1 remains.
divides_towards_zero :
    (signed_div (2 ^ 64 - 7) 2 ≡ 2 ^ 64 - 3) × (signed_mod (2 ^ 64 - 7) 2 ≡ 2 ^ 64 - 1)
unfolding signed_div signed_mod
divides_towards_zero = (refl, refl)

rotates :
    (word32_rol_wrapper 0x8000_0001 4 ≡ 0x18)
    × (word32_ror_wrapper 0x8000_0001 4 ≡ 0x1800_0000)
    × (word32_rol_wrapper 0x8000_0001 32 ≡ 0x8000_0001)
    × (word64_rol_wrapper 0x8000_0000_0000_0001 4 ≡ 0x18)
    × (word64_ror_wrapper 0x18 4 ≡ 0x8000_0000_0000_0001)
unfolding word32_rol_wrapper word32_ror_wrapper word64_rol_wrapper word64_ror_wrapper
rotates = (refl, refl, refl, refl, refl)

-- The bytes count up.
abbrev ascending : Memory
ascending = λ i. i % 256

divided : (int64_div_wrapper ascending 0).1 ≡ 1
unfolding int64_div_wrapper read_value write_value
divided = refl

-- A machine whose conversion keeps the low half.
abbrev machine : Float32Arithmetic
machine = record {
  to_float32 = λ a. a;
  from_float32 = λ a. a % 2 ^ 16;
  abs = λ a. a;
  negate = λ a. a;
  sqrt = λ a. a;
  ceilf = λ a. a;
  floorf = λ a. a;
  truncf = λ a. a;
  nearbyintf = λ a. a;
  equal = λ a b. a == b;
  less = λ a b. not (leb b a);
  less_equal = λ a b. leb a b;
  plus = λ a b. a + b;
  minus = λ a b. a;
  times = λ a b. a * b;
  divided = λ a b. a;
  js_min = λ a b. a;
  js_max = λ a b. a;
  std_min = λ a b. a;
  std_max = λ a b. a;
  is_nan = λ a. false;
  above_max_int16 = λ a. false;
  below_min_int16 = λ a. false;
  above_max_uint16 = λ a. false;
  below_zero = λ a. false;
  to_int16 = λ a. a;
  to_uint16 = λ a. a;
  from_int16 = λ a. a;
  from_uint16 = λ a. a;
}

f16x8_demote_f32x4_zero_wrapper-lane_example :
    (read_value 2 (f16x8_demote_f32x4_zero_wrapper machine 0 ascending 64) (64 + 1 * 2)
      ≡ read_value 4 ascending (64 + 1 * 4) % 2 ^ 16)
    × (read_value 2 (f16x8_demote_f32x4_zero_wrapper machine 0 ascending 64) (64 + (4 + 1) * 2) ≡ 0)
f16x8_demote_f32x4_zero_wrapper-lane_example =
    f16x8_demote_f32x4_zero_wrapper-lane machine (λ a. omega arith) 0 (omega arith) ascending 64 1
      (omega arith)

-- The sizes of the kinds, with pointers of four bytes.
abbrev kind_size : ValueKind → ℕ
kind_size kind = unit_of true kind

array_fill_wrapper-HasElements_example :
    Returns
      (HasElements 4 (read_value 4 ascending 8) (64 + 16 + 5 * 4) 5 ascending)
      (array_fill_wrapper 16 kind_size true k_i32 ascending 64 5 5 8)
array_fill_wrapper-HasElements_example =
    array_fill_wrapper-HasElements 16 kind_size ascending 64 5 5 8 (λ i. omega arith) true k_i32
      refl (omega arith) (omega arith) (omega arith) (omega arith)

-- References of four bytes.
abbrev heap : Heap
heap = record {
  element_slot = λ a i. a + 16 + i * 4;
  move_range = λ m d s n. ok (move_bytes m d s (n * 4));
  copy_range = λ m d s n. copy_bytes m d s (n * 4);
}

heap-MovesReferences : MovesReferences 16 4 heap
heap-MovesReferences = record {
  slots = λ a i. refl;
  moves = λ m d s n. refl;
  copies = λ m d s n. copy_bytes-ok m d s (n * 4);
}

-- Ten elements move up by one, in the same array.
array_copy_wrapper-ok_example :
    array_copy_wrapper 16 heap (numbers 4) ascending 64 3 64 2 10
    ≡ ok (move_bytes ascending (64 + 16 + 3 * 4) (64 + 16 + 2 * 4) (10 * 4))
array_copy_wrapper-ok_example =
    array_copy_wrapper-ok 64 3 64 2 10 (omega arith) (omega arith) 16 4 heap (numbers 4) ascending
      heap-MovesReferences (omega arith) (omega arith) (inl refl)

abbrev stack_state : StackState
stack_state = record {
  limit = 5;
  central_stack_limit = 6;
  central_stack_sp = 7;
  secondary_stack_limit = 0;
  secondary_stack_sp = 0;
  is_on_central_stack_flag = false;
  switch_counter = 1;
}

abbrev instance_data : Instance
instance_data = record {
  memories = λ _. record {
    is_shared = false;
    buffer_start = 64;
    byte_length = 64;
    memory_size = 64;
    bytes = λ _. 0;
  };
  data_segments = λ _. record { offset = 4; length = 8 };
  wire_bytes = ascending;
}

memory_init-data_drop_example :
    memory_init_wrapper (λ i n m. leb (i + n) m) (data_drop_wrapper instance_data 1) 0 2 3 1 4
    ≡ (data_drop_wrapper instance_data 1, false)
memory_init-data_drop_example =
    memory_init-data_drop (λ i n m. leb (i + n) m) (λ i n m. ground arith) instance_data 0 2 3 1 4
      (omega arith)
