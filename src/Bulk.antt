-- ===== src/Bulk.antt =====
-- Bulk operations on the memory of a WebAssembly instance, `memory_copy_wrapper` and
-- `memory_fill_wrapper` of patches/v8/modified-files/src/wasm/wasm-external-refs.cc, and what they tell
-- the detector.
pub mod Samples
pub mod Wrappers
pub mod Segments
use webtsan.Prelude.{
  ℕ, zero, suc, ◌+◌, ◌-◌, ◌*◌, ◌/◌, ◌==◌, ◌&&◌, Bool, true, false, not, Option, none, some, ltb,
  leb, if◌then◌else◌, update, uint32_max, u64, Outcome, ok, ◌>>=◌,
}
use webtsan.Caller.{Caller}
use webtsan.Callbacks.{WebTSanCallbacks}

-- A memory: the backing store of its object, if it is shared, where it starts and how long it is; the
-- size that bounds are checked against, and the bytes.
pub record WasmMemory : Type 0 where
  pub is_shared : Bool
  pub buffer_start : ℕ
  pub byte_length : ℕ
  pub memory_size : ℕ
  pub bytes : ℕ → ℕ

abbrev pub k_max_samples : ℕ
k_max_samples = 64

-- `RecordRange` of the table.
abbrev pub RecordRange : Type 0
RecordRange = Caller → ℕ → ℕ → ℕ → ℕ → ℕ → ℕ → Outcome Caller

-- The loop over the samples, from `i`, with the rounds left.
pub sample_loop : ℕ → ℕ → RecordRange → WasmMemory → ℕ → ℕ → ℕ → ℕ → Bool → Caller → Outcome Caller
sample_loop zero i record_range m offset size stride tid is_write x = ok x
sample_loop (suc n) i record_range m offset size stride tid is_write x =
    let o = u64 (offset + i * stride) in
    if leb (u64 (offset + size)) o
    then ok x
    else record_range x m.buffer_start m.byte_length o 1 tid (if is_write then 1 else 0)
      >>= (λ y. sample_loop n (suc i) record_range m offset size stride tid is_write y)

pub sample_count : ℕ → ℕ
sample_count size = if ltb size k_max_samples then size else k_max_samples

pub sample_stride : ℕ → ℕ
sample_stride size = let stride = size / sample_count size in if stride == 0 then 1 else stride

-- The flag `--wasm-tsan` and the table of callbacks.
module _ (wasm_tsan : Bool) (cbs : WebTSanCallbacks) where
  pub maybe_report_bulk_range : Caller → WasmMemory → ℕ → ℕ → Bool → Outcome Caller
  maybe_report_bulk_range x m offset size is_write =
      if not wasm_tsan then ok x else if size == 0 then ok x else elim (cbs.record_range_cb) [
        | none ↦ ok x
        | some record_range ↦ elim (cbs.get_current_tid_cb) [
          | none ↦ ok x
          | some get_tid ↦
              if not m.is_shared
              then ok x
              else if get_tid x == uint32_max
              then ok x
              else sample_loop (sample_count size) 0 record_range m offset size (sample_stride size)
                  (get_tid x) is_write x
        ]
      ]

  -- `base::IsInBounds(index, length, max)`.
  module _ (is_in_bounds : ℕ → ℕ → ℕ → Bool) where
    -- `memmove` within the memories of an instance.
    abbrev pub moved : (ℕ → WasmMemory) → ℕ → ℕ → ℕ → ℕ → ℕ → ℕ → WasmMemory
    moved memories dst_index src_index dst src size =
        update memories dst_index (record (memories dst_index) {
          bytes = λ i.
              if leb dst i && ltb i (dst + size)
              then (memories src_index).bytes (src + (i - dst))
              else (memories dst_index).bytes i;
        })

    -- True stands for `kMemOpSuccess` and false for `kOutOfBounds`.
    pub memory_copy_wrapper :
        Caller → (ℕ → WasmMemory) → ℕ → ℕ → ℕ → ℕ → ℕ → Outcome (Caller × (ℕ → WasmMemory) × Bool)
    memory_copy_wrapper x memories dst_index src_index dst src size =
        if not (is_in_bounds dst size (memories dst_index).memory_size)
        then ok (x, memories, false)
        else if not (is_in_bounds src size (memories src_index).memory_size)
        then ok (x, memories, false)
        else maybe_report_bulk_range x (memories src_index) src size false >>= (λ y.
          maybe_report_bulk_range y (memories dst_index) dst size true
          >>= (λ z. ok (z, moved memories dst_index src_index dst src size, true)))

    abbrev pub filled : (ℕ → WasmMemory) → ℕ → ℕ → ℕ → ℕ → ℕ → WasmMemory
    filled memories index dst value size = update memories index (record (memories index) {
      bytes = λ i. if leb dst i && ltb i (dst + size) then value else (memories index).bytes i;
    })

    pub memory_fill_wrapper :
        Caller → (ℕ → WasmMemory) → ℕ → ℕ → ℕ → ℕ → Outcome (Caller × (ℕ → WasmMemory) × Bool)
    memory_fill_wrapper x memories index dst value size =
        if not (is_in_bounds dst size (memories index).memory_size)
        then ok (x, memories, false)
        else maybe_report_bulk_range x (memories index) dst size true
          >>= (λ y. ok (y, filled memories index dst value size, true))
