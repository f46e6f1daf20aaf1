-- ===== src/ExternalRefs/Arrays.antt =====
-- `array_copy_wrapper` and `array_fill_wrapper` of
-- patches/v8/modified-files/src/wasm/wasm-external-refs.cc, on the bytes of the heap.
pub mod Doubling
pub mod Elements
pub mod Fill
pub mod Copy
use webtsan.Prelude.{
  ℕ, zero, suc, ◌+◌, ◌-◌, ◌*◌, ◌/◌, ◌^◌, ◌==◌, ◌&&◌, ◌||◌, Bool, true, false, not, ltb, leb,
  if◌then◌else◌, u32, Outcome, ok, undefined, check_failed, ◌>>=◌,
}
use webtsan.ExternalRefs.Bytes.{Memory, read_value, write_value, move_bytes, set_bytes}
use webtsan.ExternalRefs.Simd.{lane_loop}

-- `memcpy`, which is undefined where the ranges overlap.
unfoldable pub copy_bytes : Memory → (dst src size : ℕ) → Outcome Memory
copy_bytes m dst src size =
    if leb (dst + size) src || leb (src + size) dst
    then ok (move_bytes m dst src size)
    else undefined

-- The address of an element: `header` is the size of the header less the tag of the pointer. The product is
-- of type uint32_t.
abbrev pub array_element_address : ℕ → ℕ → ℕ → ℕ → ℕ
array_element_address header array index element_size_bytes =
    array + header + u32 (index * element_size_bytes)

-- Whether two ranges of one array overlap, with sums of uint32_t.
unfoldable pub overlapping_ranges : (dst_array dst_index src_array src_index length : ℕ) → Bool
overlapping_ranges dst_array dst_index src_array src_index length =
    (dst_array == src_array)
    && (if ltb dst_index src_index
        then ltb src_index (u32 (dst_index + length))
        else ltb dst_index (u32 (src_index + length)))

-- The heap, which has the slots of references and moves ranges of them, with a write barrier.
pub record Heap : Type 0 where
  pub element_slot : (array index : ℕ) → ℕ
  pub move_range : Memory → (dst_slot src_slot length : ℕ) → Outcome Memory
  pub copy_range : Memory → (dst_slot src_slot length : ℕ) → Outcome Memory

-- The type of the elements: references, or numbers of so many bytes.
pub data ElementType : Type 0 where
  references : ElementType
  numbers : (value_kind_size : ℕ) → ElementType

-- Ranges that overlap are moved, and others are copied.
unfoldable pub array_copy_wrapper :
    (header : ℕ)
    → Heap
    → ElementType
    → Memory
    → (dst_array dst_index src_array src_index length : ℕ) → Outcome Memory
unfolding overlapping_ranges copy_bytes
array_copy_wrapper header heap references m dst_array dst_index src_array src_index length =
    let dst = heap.element_slot dst_array dst_index in
    let src = heap.element_slot src_array src_index in
    if overlapping_ranges dst_array dst_index src_array src_index length
    then heap.move_range m dst src length
    else heap.copy_range m dst src length
array_copy_wrapper header heap (numbers size) m dst_array dst_index src_array src_index length =
    let dst = array_element_address header dst_array dst_index size in
    let src = array_element_address header src_array src_index size in
    if overlapping_ranges dst_array dst_index src_array src_index length
    then ok (move_bytes m dst src (u32 (length * size)))
    else copy_bytes m dst src (u32 (length * size))

pub data ValueKind : Type 0 where
  k_i8 : ValueKind
  k_i16 : ValueKind
  k_f16 : ValueKind
  k_i32 : ValueKind
  k_f32 : ValueKind
  k_i64 : ValueKind
  k_f64 : ValueKind
  k_ref : ValueKind
  k_ref_null : ValueKind
  k_s128 : ValueKind
  k_wait_queue : ValueKind
  k_void : ValueKind
  k_top : ValueKind
  k_bottom : ValueKind

-- What the switch comes to: all is set, the first eight bytes are set, or the program stops.
pub data FillStep : Type 0 where
  all_set : Memory → FillStep
  eight_set : Memory → FillStep
  stopped : FillStep

-- A value of `unit` bytes, as often as eight bytes hold it.
abbrev pub set_eight : ℕ → ℕ → Memory → ℕ → Memory
set_eight unit value m start = lane_loop (8 / unit) 0 unit (λ _ _. value) start m

abbrev pub fill_number : ℕ → Memory → (start value_addr bytes_to_set : ℕ) → FillStep
fill_number unit m start value_addr bytes_to_set =
    if read_value unit m value_addr == 0
    then all_set (set_bytes m start 0 bytes_to_set)
    else eight_set (set_eight unit (read_value unit m value_addr) m start)

-- Whether pointers are compressed to four bytes.
abbrev pub fill_reference : Bool → Memory → (start value_addr : ℕ) → FillStep
fill_reference compressed m start value_addr =
    let unit = if compressed then 4 else 8 in
    eight_set (set_eight unit (read_value unit m value_addr) m start)

unfoldable pub fill_first :
    Bool → ValueKind → Memory → (start value_addr bytes_to_set : ℕ) → FillStep
unfolding lane_loop read_value
fill_first compressed k_i64 m start value_addr bytes = fill_number 8 m start value_addr bytes
fill_first compressed k_f64 m start value_addr bytes = fill_number 8 m start value_addr bytes
fill_first compressed k_i32 m start value_addr bytes = fill_number 4 m start value_addr bytes
fill_first compressed k_f32 m start value_addr bytes = fill_number 4 m start value_addr bytes
fill_first compressed k_i16 m start value_addr bytes = fill_number 2 m start value_addr bytes
fill_first compressed k_f16 m start value_addr bytes = fill_number 2 m start value_addr bytes
fill_first compressed k_i8 m start value_addr bytes = fill_number 1 m start value_addr bytes
fill_first compressed k_ref m start value_addr bytes = fill_reference compressed m start value_addr
fill_first compressed k_ref_null m start value_addr bytes =
    fill_reference compressed m start value_addr
fill_first compressed k_s128 m start value_addr bytes = all_set (set_bytes m start 0 bytes)
fill_first compressed k_wait_queue m start value_addr bytes = stopped
fill_first compressed k_void m start value_addr bytes = stopped
fill_first compressed k_top m start value_addr bytes = stopped
fill_first compressed k_bottom m start value_addr bytes = stopped

-- The range that is set doubles while twice of it fits. The numbers are of type int.
unfoldable pub doubling_loop :
    ℕ → Memory → (start bytes_already_set bytes_to_set : ℕ) → Outcome (Memory × ℕ)
unfolding copy_bytes
doubling_loop zero m start k bytes_to_set = undefined
doubling_loop (suc fuel) m start k bytes_to_set =
    let rest =
      copy_bytes m (start + k) start k
      >>= (λ m1. doubling_loop fuel m1 start (k * 2) bytes_to_set) in
    if leb (2 ^ 31) (k * 2) then undefined else if leb (k * 2) bytes_to_set then rest else ok (m, k)

-- What is left at the end.
unfoldable pub fill_rest : (start bytes_to_set : ℕ) → Memory × ℕ → Outcome Memory
unfolding copy_bytes
fill_rest start bytes_to_set (m, k) =
    if ltb k bytes_to_set then copy_bytes m (start + k) start (bytes_to_set - k) else ok m

-- More doublings than an int has bits.
abbrev pub k_doublings : ℕ
k_doublings = 32

abbrev pub fill_on : (start bytes_to_set : ℕ) → FillStep → Outcome Memory
fill_on start bytes_to_set (all_set m) = ok m
fill_on start bytes_to_set stopped = check_failed
fill_on start bytes_to_set (eight_set m) =
    doubling_loop k_doublings m start 8 bytes_to_set >>= (λ r. fill_rest start bytes_to_set r)

-- With a number of bytes that is not negative.
unfoldable pub fill_bytes :
    Bool → ValueKind → Memory → (start value_addr bytes_to_set : ℕ) → Outcome Memory
unfolding fill_first doubling_loop fill_rest
fill_bytes compressed kind m start value_addr bytes_to_set =
    if ltb bytes_to_set 8
    then check_failed
    else fill_on start bytes_to_set (fill_first compressed kind m start value_addr bytes_to_set)

-- With a negative one, which passes the check as a size, and is too large a size for `memset`. The loop and
-- what follows it do nothing.
abbrev pub fill_negative : FillStep → Outcome Memory
fill_negative (all_set m) = undefined
fill_negative (eight_set m) = ok m
fill_negative stopped = check_failed

-- The size of an element is that of V8 for its kind. The product is of type uint32_t, and then of type int.
-- The write barrier at the end is not modelled.
unfoldable pub array_fill_wrapper :
    (header : ℕ)
    → (value_kind_size : ValueKind → ℕ) → Bool
    → ValueKind
    → Memory
    → (array index length value_addr : ℕ) → Outcome Memory
unfolding fill_bytes fill_first
array_fill_wrapper header value_kind_size compressed kind m array index length value_addr =
    let start = array_element_address header array index (value_kind_size kind) in
    let bytes_to_set = u32 (length * value_kind_size kind) in
    if leb (2 ^ 31) bytes_to_set
    then fill_negative (fill_first compressed kind m start value_addr bytes_to_set)
    else fill_bytes compressed kind m start value_addr bytes_to_set
