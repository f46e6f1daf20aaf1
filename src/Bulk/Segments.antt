-- ===== src/Bulk/Segments.antt =====
-- `memory_init_wrapper` and `data_drop_wrapper` of
-- patches/v8/modified-files/src/wasm/wasm-external-refs.cc, on the data segments of an instance. Neither
-- tells the detector.
use webtsan.Prelude.{
  ℕ, ◌+◌, ◌-◌, ◌&&◌, ◌≤◌, ◌<◌, ◌≡◌, ◌↔◌, refl, ap, ◌∙◌, Bool, true, false, not, leb, ltb,
  if◌then◌else◌, update, update_same, arith, if-cases,
}
use webtsan.Bulk.{WasmMemory}

-- `WireBytesRef`: where a segment lies in the bytes of the module.
pub record WireBytesRef : Type 0 where
  pub offset : ℕ
  pub length : ℕ

-- The segments become empty one by one.
pub record Instance : Type 0 where
  pub memories : ℕ → WasmMemory
  pub data_segments : ℕ → WireBytesRef
  pub wire_bytes : ℕ → ℕ

abbrev pub no_bytes : WireBytesRef
no_bytes = record { offset = 0; length = 0 }

unfoldable pub data_drop_wrapper : Instance → ℕ → Instance
data_drop_wrapper x segment_index = record x {
  data_segments = update x.data_segments segment_index no_bytes;
}

-- `memcpy` from the module to a memory.
abbrev pub initialized : Instance → (mem_index dst start size : ℕ) → Instance
initialized x mem_index dst start size = record x {
  memories = update x.memories mem_index (record (x.memories mem_index) {
    bytes = λ i.
        if leb dst i && ltb i (dst + size)
        then x.wire_bytes (start + (i - dst))
        else (x.memories mem_index).bytes i;
  });
}

-- `base::IsInBounds(index, length, max)`. True stands for `kMemOpSuccess`.
module _ (is_in_bounds : ℕ → ℕ → ℕ → Bool) where
  unfoldable pub memory_init_wrapper :
      Instance → (mem_index dst src seg_index size : ℕ) → Instance × Bool
  memory_init_wrapper x mem_index dst src seg_index size =
      if not (is_in_bounds dst size (x.memories mem_index).memory_size)
      then (x, false)
      else if not (is_in_bounds src size (x.data_segments seg_index).length)
      then (x, false)
      else (initialized x mem_index dst ((x.data_segments seg_index).offset + src) size, true)

  -- With the bounds check of V8, which answers true exactly where a range lies within a size: once a segment is
  -- dropped, memory.init from it answers out of bounds and changes nothing, but for no bytes from its start.
  pub memory_init-data_drop :
      ((i n m : ℕ) → (is_in_bounds i n m ≡ true) ↔ (i + n ≤ m))
      → (x : Instance) (mem_index dst src seg_index size : ℕ) → 0 < src + size
      → memory_init_wrapper (data_drop_wrapper x seg_index) mem_index dst src seg_index size
        ≡ (data_drop_wrapper x seg_index, false)
  unfolding memory_init_wrapper data_drop_wrapper
  memory_init-data_drop in_bounds x mem_index dst src seg_index size some_bytes =
      let dropped = update_same x.data_segments seg_index no_bytes in
      let v = record x { data_segments = update x.data_segments seg_index no_bytes } in
      let beyond : is_in_bounds src size (v.data_segments seg_index).length ≡ false =
        ap (λ s. is_in_bounds src size s.length) dropped ∙ outside in
      if-cases (λ (r : Instance × Bool). r ≡ (v, false))
        (not (is_in_bounds dst size (x.memories mem_index).memory_size)) (λ _. refl)
        (λ _.
          ap
            (λ b. if not b then (v, false) else (
              initialized v mem_index dst ((v.data_segments seg_index).offset + src) size,
              true,
            ))
            beyond)
    where
      is_false : (b : Bool) → (b ≡ true → src + size ≤ 0) → b ≡ false
      is_false true h = absurd (omega (arith, h refl))
      is_false false h = refl

      outside : is_in_bounds src size 0 ≡ false
      outside = is_false (is_in_bounds src size 0) (λ e. (in_bounds src size 0).0 e)
