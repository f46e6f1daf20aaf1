-- ===== src/ExternalRefs/Arrays/Copy.antt =====
-- `array_copy_wrapper` on the bytes of the elements.
use webtsan.Prelude.{
  Outcome, u32, ℕ, ◌+◌, ◌*◌, ◌^◌, ◌||◌, ◌≤◌, ◌<◌, ◌≡◌, refl, ap, arith, ◌⊎◌, inl, inr, true, false,
  leb, if◌then◌else◌, ok, undefined, if-cases,
}
use native.Mathlib.Nat.{add-mul, mul-le-mul_right}
use webtsan.ExternalRefs.Bytes.{Memory, move_bytes}
use webtsan.ExternalRefs.Arrays.{
  copy_bytes, overlapping_ranges, array_copy_wrapper, Heap, ElementType, references, numbers,
}

-- Two ranges of `size` bytes are apart.
abbrev pub AreApart : ℕ → ℕ → ℕ → Type 0
AreApart dst src size = (dst + size ≤ src) ⊎ (src + size ≤ dst)

pub copy_bytes-ok :
    (m : Memory) (dst src size : ℕ)
    → AreApart dst src size
    → copy_bytes m dst src size ≡ ok (move_bytes m dst src size)
unfolding copy_bytes
copy_bytes-ok m dst src size (inl h) =
    let test : (leb (dst + size) src || leb (src + size) dst) ≡ true = ground arith in
    ap (λ b. if b then ok (move_bytes m dst src size) else undefined) test
copy_bytes-ok m dst src size (inr h) =
    let test : (leb (dst + size) src || leb (src + size) dst) ≡ true = ground arith in
    ap (λ b. if b then ok (move_bytes m dst src size) else undefined) test

scaled : (i j length size : ℕ) → i + length ≤ j → i * size + length * size ≤ j * size
scaled i j length size h = omega (arith, add-mul i length size, mul-le-mul_right size h)

-- The heap has the references behind the header, of so many bytes each, and moves and copies their bytes;
-- it copies ranges that are apart.
pub record MovesReferences (header tagged_size : ℕ) (heap : Heap) : Type 0 where
  pub slots :
      (array index : ℕ) → heap.element_slot array index ≡ array + header + index * tagged_size
  pub moves :
      (m : Memory) (dst src length : ℕ)
      → heap.move_range m dst src length ≡ ok (move_bytes m dst src (length * tagged_size))
  pub copies :
      (m : Memory) (dst src length : ℕ)
      → AreApart dst src (length * tagged_size)
      → heap.copy_range m dst src length ≡ ok (move_bytes m dst src (length * tagged_size))

abbrev pub size_of : (tagged_size : ℕ) → ElementType → ℕ
size_of tagged_size references = tagged_size
size_of tagged_size (numbers size) = size

-- The offsets of numbers are below 2^32.
abbrev pub HasOffsets : ElementType → (index length : ℕ) → Type 0
HasOffsets references index length = Unit
HasOffsets (numbers size) index length = (index + length) * size < 2 ^ 32

product_fits :
    (index length size : ℕ)
    → (index + length) * size < 2 ^ 32
    → (u32 (index * size) ≡ index * size) × (u32 (length * size) ≡ length * size)
product_fits index length size h =
    let sum = add-mul index length size in (omega (arith, h, sum), omega (arith, h, sum))

-- The test, with what is moved and what is copied.
module _ (dst_array dst_index src_array src_index length : ℕ)
    (dst_fits : dst_index + length < 2 ^ 32) (src_fits : src_index + length < 2 ^ 32) where
  no_overlap :
      overlapping_ranges dst_array dst_index src_array src_index length ≡ false
      → dst_array ≡ src_array
      → (dst_index + length ≤ src_index) ⊎ (src_index + length ≤ dst_index)
  unfolding overlapping_ranges
  no_overlap e same = ground arith

  elements_apart :
      (header size : ℕ)
      → dst_array ≡ src_array
      → (dst_index + length ≤ src_index) ⊎ (src_index + length ≤ dst_index)
      → AreApart
          (dst_array + header + dst_index * size)
          (src_array + header + src_index * size)
          (length * size)
  elements_apart header size same (inl h) =
      inl (omega (arith, scaled dst_index src_index length size h, same))
  elements_apart header size same (inr h) =
      inr (omega (arith, scaled src_index dst_index length size h, same))

  moved_or_copied :
      (header size : ℕ) (moved copied result : Outcome Memory)
      → ((dst_array ≡ src_array)
          ⊎ AreApart
              (dst_array + header + dst_index * size)
              (src_array + header + src_index * size)
              (length * size))
      → moved ≡ result
      → (AreApart
            (dst_array + header + dst_index * size)
            (src_array + header + src_index * size)
            (length * size)
          → copied ≡ result)
      → (if overlapping_ranges dst_array dst_index src_array src_index length
          then moved
          else copied)
        ≡ result
  moved_or_copied header size moved copied result places m c =
      if-cases (λ (o : Outcome Memory). o ≡ result)
        (overlapping_ranges dst_array dst_index src_array src_index length) (λ _. m)
        (λ e. c (elim places [
          | inl same ↦ elements_apart header size same (no_overlap e same)
          | inr apart ↦ apart
        ]))

  -- For ranges of elements within 2^32, of numbers with offsets below 2^32 or of references that the heap
  -- moves, in one array or at places that are apart: array.copy returns, and moves the bytes of the elements
  -- as they were before the call, also where the ranges overlap.
  pub array_copy_wrapper-ok :
      (header tagged_size : ℕ) (heap : Heap) (type : ElementType) (m : Memory)
      → MovesReferences header tagged_size heap
      → HasOffsets type dst_index length
      → HasOffsets type src_index length
      → ((dst_array ≡ src_array)
          ⊎ AreApart
              (dst_array + header + dst_index * size_of tagged_size type)
              (src_array + header + src_index * size_of tagged_size type)
              (length * size_of tagged_size type))
      → array_copy_wrapper header heap type m dst_array dst_index src_array src_index length
        ≡ ok (
            move_bytes m
              (dst_array + header + dst_index * size_of tagged_size type)
              (src_array + header + src_index * size_of tagged_size type)
              (length * size_of tagged_size type))
  unfolding array_copy_wrapper
  array_copy_wrapper-ok header tagged_size heap references m law d s places =
      rw (law.slots dst_array dst_index, law.slots src_array src_index)
        (moved_or_copied header tagged_size _ _ _ places (law.moves m _ _ length)
          (law.copies m _ _ length))
  array_copy_wrapper-ok header tagged_size heap (numbers size) m law d s places =
      let (dst_offset, bytes) = product_fits dst_index length size d in
      let (src_offset, _) = product_fits src_index length size s in
      rw (dst_offset, src_offset, bytes)
        (moved_or_copied header size _ _ _ places refl (copy_bytes-ok m _ _ (length * size)))
