-- ===== src/BackingStore/Destroy.antt =====
-- The destructor of patches/v8/modified-files/src/objects/backing-store.cc, with the hook of the
-- detector, which Workers models.
pub mod Freed
use webtsan.Prelude.{
  ℕ, ◌+◌, ◌==◌, ◌≡◌, ◌≢◌, refl, not, Bool, true, false, List, [], ◌∷◌, ◌++◌, Option, none, some,
  if◌then◌else◌, Outcome, ok, undefined, check_failed, ◌>>=◌, ltb, Returns, if-cases, arith,
}
use webtsan.Caller.{Caller}
use webtsan.Callbacks.{WebTSanCallbacks}
use webtsan.Workers.{destroy_backing_store}
use webtsan.BackingStore.{
  BackingStore, TypeSpecificData, no_data, allocator, allocator_shared, shared_wasm_memory_data,
  deleter, get_wasm_reservation_size, get_shared_wasm_memory_data,
  get_v8_api_array_buffer_allocator, allocate, new_backing_store, set_allocator_from_isolate,
}
use webtsan.BackingStore.Registry.{Registry, unregister}

-- What is given back: to the trap handler, to the page allocator, to a deleter, to an allocator of
-- buffers; and a pointer to such an allocator that is shared.
pub data Release : Type 0 where
  uncovered : (start size : ℕ) → Release
  pages : (start size : ℕ) → Release
  deleted : (callback start length argument : ℕ) → Release
  freed : (by start length : ℕ) → Release
  dropped : (shared : ℕ) → Release

abbrev pub call_deleter : BackingStore → Outcome (List Release)
call_deleter b = elim (b.type_specific_data) [
  | deleter f a ↦ ok (deleted f b.buffer_start b.byte_length a ∷ [])
  | _ ↦ undefined
]

abbrev pub clear_shared_allocator : TypeSpecificData → List Release
clear_shared_allocator no_data = []
clear_shared_allocator (allocator a) = []
clear_shared_allocator (allocator_shared a) = dropped a ∷ []
clear_shared_allocator (shared_wasm_memory_data isolates) = []
clear_shared_allocator (deleter f a) = []

-- The largest memory of 64 bits is a constant of V8.
module _ (k_max_memory64_size : ℕ) where
  abbrev pub reservation : BackingStore → ℕ
  unfolding get_wasm_reservation_size
  reservation b =
      get_wasm_reservation_size k_max_memory64_size b.has_guard_regions b.byte_capacity
        b.is_wasm_memory64

  abbrev pub free_resizable_memory : BackingStore → List Release
  free_resizable_memory b =
      if reservation b == 0 then [] else pages b.buffer_start (reservation b) ∷ []

  abbrev pub unregister_covered : BackingStore → List Release
  unregister_covered b =
      if b.has_guard_regions then uncovered b.buffer_start (reservation b) ∷ [] else []

  abbrev pub release_wasm_memory : BackingStore → Outcome (List Release)
  unfolding get_shared_wasm_memory_data
  release_wasm_memory b =
      let es = unregister_covered b ++ free_resizable_memory b in
      if b.is_shared then (get_shared_wasm_memory_data b >>= λ isolates. ok es) else ok es

  unfoldable pub release_memory : BackingStore → Outcome (List Release)
  unfolding get_v8_api_array_buffer_allocator
  release_memory b =
      if b.buffer_start == 0
      then ok []
      else if b.is_wasm_memory
      then release_wasm_memory b
      else if b.is_resizable_by_js
      then ok (free_resizable_memory b)
      else if b.custom_deleter
      then call_deleter b
      else get_v8_api_array_buffer_allocator b >>= λ a.
          ok (freed a b.buffer_start b.byte_length ∷ [])

  unfoldable pub destroy :
      (wasm_tsan : Bool)
      → WebTSanCallbacks
      → Caller
      → Registry
      → BackingStore
      → Outcome (Caller × Registry × List Release)
  unfolding destroy_backing_store unregister release_memory
  destroy wasm_tsan cbs x r b = unregister r b >>= λ (r1, b1). release_memory b1 >>= λ es. ok (
    destroy_backing_store wasm_tsan cbs x b.is_shared b.buffer_start,
    r1,
    es ++ clear_shared_allocator b1.type_specific_data,
  )
