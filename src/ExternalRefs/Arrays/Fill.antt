-- ===== src/ExternalRefs/Arrays/Fill.antt =====
-- `array_fill_wrapper` element by element.
use webtsan.Prelude.{
  ◌+◌, u32, leb, ◌≡◌, ℕ, ◌*◌, ◌^◌, ◌==◌, ◌≤◌, ◌<◌, sym, subst, arith, Bool, true, false,
  if◌then◌else◌, Returns, if-cases, ==_iff, check_failed, le→ltb,
}
use webtsan.ExternalRefs.Bytes.{Memory, read_value, set_bytes, read_value-lt}
use webtsan.ExternalRefs.Arrays.{
  ValueKind, k_i8, k_i16, k_f16, k_i32, k_f32, k_i64, k_f64, k_ref, k_ref_null, k_s128,
  k_wait_queue, k_void, k_top, k_bottom, all_set, eight_set, set_eight, fill_number, fill_first,
  fill_on, fill_bytes, array_fill_wrapper,
}
use webtsan.ExternalRefs.Arrays.Elements.{
  Divides, divides1, divides2, divides4, divides8, HasElements, eight-HasElements,
  zeros-HasElements,
}

-- The size of an element, 0 for the kinds of which the function does not copy a value.
abbrev pub unit_of : Bool → ValueKind → ℕ
unit_of compressed k_i8 = 1
unit_of compressed k_i16 = 2
unit_of compressed k_f16 = 2
unit_of compressed k_i32 = 4
unit_of compressed k_f32 = 4
unit_of compressed k_i64 = 8
unit_of compressed k_f64 = 8
unit_of compressed k_ref = if compressed then 4 else 8
unit_of compressed k_ref_null = if compressed then 4 else 8
unit_of compressed k_s128 = 0
unit_of compressed k_wait_queue = 0
unit_of compressed k_void = 0
unit_of compressed k_top = 0
unit_of compressed k_bottom = 0

module _ (m : Memory) (start value_addr length : ℕ) (is_bytes : (i : ℕ) → m i < 256) where
  module _ (u q : ℕ) (divides : Divides u q) (least : 8 ≤ length * u)
      (small : length * u < 2 ^ 30) where
    reference-HasElements :
        Returns
          (HasElements u (read_value u m value_addr) start length m)
          (fill_on start (length * u) (eight_set (set_eight u (read_value u m value_addr) m start)))
    reference-HasElements =
        eight-HasElements u q (read_value u m value_addr) start length m divides
          (read_value-lt u m value_addr is_bytes) least small

    number-HasElements :
        Returns
          (HasElements u (read_value u m value_addr) start length m)
          (fill_on start (length * u) (fill_number u m start value_addr (length * u)))
    number-HasElements =
        let value = read_value u m value_addr in
        if-cases
          (λ step. Returns (HasElements u value start length m) (fill_on start (length * u) step))
          (value == 0) {x = all_set (set_bytes m start 0 (length * u))}
          {y = eight_set (set_eight u value m start)}
          (λ e.
            zeros-HasElements u q value start length m divides
              (read_value-lt u m value_addr is_bytes) least small ((==_iff value 0).0 e))
          (λ _. reference-HasElements)

  fill_on-HasElements :
      (compressed : Bool) (kind : ValueKind)
      → 0 < unit_of compressed kind
      → 8 ≤ length * unit_of compressed kind
      → length * unit_of compressed kind < 2 ^ 30
      → Returns
          (HasElements
            (unit_of compressed kind)
            (read_value (unit_of compressed kind) m value_addr)
            start
            length
            m)
          (fill_on start
            (length * unit_of compressed kind)
            (fill_first compressed kind m start value_addr (length * unit_of compressed kind)))
  unfolding fill_first
  fill_on-HasElements compressed k_i8 h least small = number-HasElements 1 8 divides1 least small
  fill_on-HasElements compressed k_i16 h least small = number-HasElements 2 4 divides2 least small
  fill_on-HasElements compressed k_f16 h least small = number-HasElements 2 4 divides2 least small
  fill_on-HasElements compressed k_i32 h least small = number-HasElements 4 2 divides4 least small
  fill_on-HasElements compressed k_f32 h least small = number-HasElements 4 2 divides4 least small
  fill_on-HasElements compressed k_i64 h least small = number-HasElements 8 1 divides8 least small
  fill_on-HasElements compressed k_f64 h least small = number-HasElements 8 1 divides8 least small
  fill_on-HasElements true k_ref h least small = reference-HasElements 4 2 divides4 least small
  fill_on-HasElements false k_ref h least small = reference-HasElements 8 1 divides8 least small
  fill_on-HasElements true k_ref_null h least small = reference-HasElements 4 2 divides4 least small
  fill_on-HasElements false k_ref_null h least small =
      reference-HasElements 8 1 divides8 least small
  fill_on-HasElements compressed k_s128 h least small = absurd (omega arith)
  fill_on-HasElements compressed k_wait_queue h least small = absurd (omega arith)
  fill_on-HasElements compressed k_void h least small = absurd (omega arith)
  fill_on-HasElements compressed k_top h least small = absurd (omega arith)
  fill_on-HasElements compressed k_bottom h least small = absurd (omega arith)

  fill_bytes-HasElements :
      (compressed : Bool) (kind : ValueKind)
      → 0 < unit_of compressed kind
      → 8 ≤ length * unit_of compressed kind
      → length * unit_of compressed kind < 2 ^ 30
      → Returns
          (HasElements
            (unit_of compressed kind)
            (read_value (unit_of compressed kind) m value_addr)
            start
            length
            m)
          (fill_bytes compressed kind m start value_addr (length * unit_of compressed kind))
  unfolding fill_bytes
  fill_bytes-HasElements compressed kind h least small =
      let bytes = length * unit_of compressed kind in
      subst
        (λ b.
          Returns
            (HasElements (unit_of compressed kind)
              (read_value (unit_of compressed kind) m value_addr) start length m)
            (if b
              then check_failed
              else fill_on start bytes (fill_first compressed kind m start value_addr bytes)))
        (sym (le→ltb bytes 8 least)) (fill_on-HasElements compressed kind h least small)

module _ (header : ℕ) (value_kind_size : ValueKind → ℕ) (m : Memory)
    (array index length value_addr : ℕ) (is_bytes : (i : ℕ) → m i < 256) where
  -- Where V8 gives the kind its size, for an offset below 2^32 and a range of 8 bytes or more and less than
  -- 2^30, of numbers or references: array.fill returns, with no copy of overlapping ranges and no overflow of
  -- an int, each element of the range holds the value at the address as it was before, and no byte outside
  -- the range changes.
  pub array_fill_wrapper-HasElements :
      (compressed : Bool) (kind : ValueKind)
      → value_kind_size kind ≡ unit_of compressed kind
      → 0 < unit_of compressed kind
      → index * unit_of compressed kind < 2 ^ 32
      → 8 ≤ length * unit_of compressed kind
      → length * unit_of compressed kind < 2 ^ 30
      → Returns
          (HasElements
            (unit_of compressed kind)
            (read_value (unit_of compressed kind) m value_addr)
            (array + header + index * unit_of compressed kind)
            length
            m)
          (array_fill_wrapper header value_kind_size compressed kind m array index length
            value_addr)
  unfolding array_fill_wrapper
  array_fill_wrapper-HasElements compressed kind size h offset least small =
      let unit = unit_of compressed kind in
      let start = array + header + index * unit in
      let bytes = length * unit in
      let at : u32 (index * unit) ≡ index * unit = omega arith in
      let all : u32 (length * unit) ≡ length * unit = omega arith in
      let positive : leb (2 ^ 31) (length * unit) ≡ false = ground arith in
      rw (size, at, all, positive)
        (fill_bytes-HasElements m start value_addr length is_bytes compressed kind h least small)
