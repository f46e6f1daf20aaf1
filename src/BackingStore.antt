-- ===== src/BackingStore.antt =====
-- Backing stores of array buffers and of WebAssembly memories, in
-- patches/v8/modified-files/src/objects/backing-store.cc: what a store is made of and how it is made.
pub mod Grow
pub mod Resize
pub mod Registry
pub mod Destroy
pub mod Pages
use webtsan.Prelude.{
  ℕ, ◌+◌, ◌==◌, ◌&&◌, Bool, true, false, List, Option, none, some, if◌then◌else◌, Outcome, ok,
  undefined, check_failed, ◌>>=◌, ltb, not,
}

-- Addresses of allocators, deleters and isolates are numbers; those that can be null are at 0.
pub data TypeSpecificData : Type 0 where
  no_data : TypeSpecificData
  allocator : ℕ → TypeSpecificData
  allocator_shared : ℕ → TypeSpecificData
  shared_wasm_memory_data : List ℕ → TypeSpecificData
  deleter : (callback argument : ℕ) → TypeSpecificData

pub record BackingStore : Type 0 where
  pub buffer_start : ℕ
  pub byte_length : ℕ
  pub max_byte_length : ℕ
  pub byte_capacity : ℕ
  pub id : ℕ
  pub type_specific_data : TypeSpecificData
  pub is_shared : Bool
  pub is_resizable_by_js : Bool
  pub is_immutable : Bool
  pub is_wasm_memory : Bool
  pub is_wasm_memory64 : Bool
  pub has_guard_regions : Bool
  pub custom_deleter : Bool
  pub empty_deleter : Bool
  pub globally_registered : Bool

abbrev pub k_full_guard_size32 : ℕ
k_full_guard_size32 = 8589934592

-- On a machine of 64 bits that is not an ARM. The largest memory of 64 bits is a constant of V8.
unfoldable pub get_wasm_reservation_size : (k_max_memory64_size : ℕ) → Bool → ℕ → Bool → ℕ
get_wasm_reservation_size k_max_memory64_size has_guard_regions byte_capacity is_wasm_memory64 =
    if has_guard_regions
    then (if is_wasm_memory64 then k_max_memory64_size else k_full_guard_size32)
    else byte_capacity

-- The constructor, with the id that is next.
unfoldable pub new_backing_store :
    (next_id : ℕ) (buffer_start byte_length max_byte_length byte_capacity : ℕ)
    (is_shared is_resizable is_immutable is_wasm_memory is_wasm_memory64 has_guard_regions
      custom_deleter empty_deleter : Bool)
    → Outcome BackingStore
new_backing_store next_id start length max_length capacity shared resizable immutable wasm wasm64
      guard custom empty =
    if wasm && (capacity == 0)
    then check_failed
    else ok (record {
      buffer_start = start;
      byte_length = length;
      max_byte_length = max_length;
      byte_capacity = capacity;
      id = next_id;
      type_specific_data = no_data;
      is_shared = shared;
      is_resizable_by_js = resizable;
      is_immutable = immutable;
      is_wasm_memory = wasm;
      is_wasm_memory64 = wasm64;
      has_guard_regions = guard;
      custom_deleter = custom;
      empty_deleter = empty;
      globally_registered = false;
    })

-- The deleter that does nothing has the number `empty_callback`.
unfoldable pub wrap_allocation :
    (next_id empty_callback base length callback argument : ℕ) (is_shared : Bool)
    → Outcome BackingStore
unfolding new_backing_store
wrap_allocation next_id empty_callback base length callback argument shared =
    new_backing_store next_id base length length length shared false false false false false true
      (callback == empty_callback)
    >>= λ result. ok (record result { type_specific_data = deleter callback argument })

unfoldable pub empty_backing_store : (next_id : ℕ) (is_shared : Bool) → Outcome BackingStore
unfolding new_backing_store
empty_backing_store next_id shared =
    new_backing_store next_id 0 0 0 0 shared false false false false false false false

-- `SetAllocatorFromIsolate`, with the shared allocator of the isolate where it has one.
unfoldable pub set_allocator_from_isolate : BackingStore → Option ℕ → ℕ → BackingStore
set_allocator_from_isolate b none a = record b { type_specific_data = allocator a }
set_allocator_from_isolate b (some s) a = record b { type_specific_data = allocator_shared s }

-- `Allocate`, with the largest size of the allocator, what the allocation of a number of bytes gives,
-- 0 where it fails, and the allocators of the isolate.
unfoldable pub allocate :
    (next_id max_allocation_size : ℕ)
    → (ℕ → ℕ)
    → Option ℕ
    → (array_buffer_allocator byte_length : ℕ) (is_shared : Bool) → Outcome (Option BackingStore)
unfolding new_backing_store set_allocator_from_isolate
allocate next_id max_allocation_size allocate_buffer shared_allocator a length shared =
    if a == 0
    then check_failed
    else if ltb max_allocation_size length
    then ok none
    else if length == 0
    then result 0
    else if allocate_buffer length == 0
    then ok none
    else result (allocate_buffer length)
  where
    result : ℕ → Outcome (Option BackingStore)
    result start =
        new_backing_store next_id start length length length shared false false false false false
          false false
        >>= λ b. ok (some (set_allocator_from_isolate b shared_allocator a))

-- `get_v8_api_array_buffer_allocator`.
unfoldable pub get_v8_api_array_buffer_allocator : BackingStore → Outcome ℕ
get_v8_api_array_buffer_allocator b =
    if b.is_wasm_memory then check_failed else elim (b.type_specific_data) [
      | allocator a ↦ if a == 0 then check_failed else ok a
      | allocator_shared a ↦ if a == 0 then check_failed else ok a
      | _ ↦ undefined
    ]

-- `get_shared_wasm_memory_data`, the isolates that share the memory.
unfoldable pub get_shared_wasm_memory_data : BackingStore → Outcome (List ℕ)
get_shared_wasm_memory_data b =
    if b.is_wasm_memory && b.is_shared
    then elim (b.type_specific_data) [
      | shared_wasm_memory_data isolates ↦ ok isolates
      | _ ↦ check_failed
    ]
    else check_failed

-- `MakeWasmMemoryResizableByJS`.
unfoldable pub make_wasm_memory_resizable_by_js : BackingStore → Bool → BackingStore
make_wasm_memory_resizable_by_js b resizable = record b { is_resizable_by_js = resizable }
