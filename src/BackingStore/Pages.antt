-- ===== src/BackingStore/Pages.antt =====
-- The stores that patches/v8/modified-files/src/objects/backing-store.cc makes of reserved pages:
-- `TryAllocateAndPartiallyCommitMemory` and `AllocateWasmMemory`.
pub mod Attempts
pub mod Made
use webtsan.Prelude.{
  ℕ, ◌+◌, ◌-◌, ◌*◌, ◌/◌, ◌%◌, ◌^◌, ◌==◌, ◌&&◌, ◌||◌, not, Bool, true, false, List, [], ◌∷◌, Option,
  none, some, ltb, leb, if◌then◌else◌, Outcome, ok, check_failed, ◌>>=◌, u64,
}
use webtsan.BackingStore.{
  BackingStore, shared_wasm_memory_data, get_wasm_reservation_size, new_backing_store,
}
use webtsan.BackingStore.Grow.{k_wasm_page_size}

pub data WasmMemoryFlag : Type 0 where
  k_not_wasm : WasmMemoryFlag
  k_wasm_memory32 : WasmMemoryFlag
  k_wasm_memory64 : WasmMemoryFlag

abbrev pub is_wasm : WasmMemoryFlag → Bool
is_wasm k_not_wasm = false
is_wasm k_wasm_memory32 = true
is_wasm k_wasm_memory64 = true

abbrev pub is_wasm64 : WasmMemoryFlag → Bool
is_wasm64 k_not_wasm = false
is_wasm64 k_wasm_memory32 = false
is_wasm64 k_wasm_memory64 = true

-- What the system answers to an attempt: the start of the pages that are reserved, and whether the
-- first of them are made accessible, each at once or after garbage is collected.
pub record SystemAnswers : Type 0 where
  pub reserve : (size : ℕ) → Option ℕ
  pub reserve_again : (size : ℕ) → Option ℕ
  pub commit : (start size : ℕ) → Bool
  pub commit_again : (start size : ℕ) → Bool

-- What an attempt leaves: a store, or none, with the pages that it has given back.
pub data Attempt : Type 0 where
  allocated : (did_retry : Bool) → BackingStore → Attempt
  not_reserved : Attempt
  given_up : (start size : ℕ) → Attempt
  too_many_pages : Attempt

abbrev pub at_least_one : ℕ → ℕ
at_least_one n = if n == 0 then 1 else n

abbrev pub first_answer {ℓ} : {A : Type ℓ} → Option A → Option A → Option (A × Bool)
first_answer none none = none
first_answer none (some a) = some (a, true)
first_answer (some a) o = some (a, false)

-- The size of a page, and the id that is next. The lengths are of 64 bits.
module _ (k_max_memory64_size next_id : ℕ) (env : SystemAnswers) where
  -- After the pages at `start` are reserved.
  unfoldable pub commit_memory :
      (byte_length max_byte_length byte_capacity committed reservation : ℕ)
      → WasmMemoryFlag
      → (is_shared has_guard_regions did_retry : Bool) (start : ℕ) → Outcome Attempt
  unfolding new_backing_store
  commit_memory length max_length capacity committed size wasm shared guard retried start =
      let first = (committed == 0) || env.commit start committed in
      if first || env.commit_again start committed
      then (new_backing_store next_id start length max_length capacity shared (not (is_wasm wasm))
            false (is_wasm wasm) (is_wasm64 wasm) guard false false
          >>= λ b. ok (allocated (retried || not first) b))
      else ok (given_up start size)

  unfoldable pub try_allocate_and_partially_commit_memory :
      (byte_length max_byte_length page_size initial_pages maximum_pages : ℕ)
      → WasmMemoryFlag
      → (is_shared has_guard_regions : Bool) → Outcome Attempt
  unfolding commit_memory get_wasm_reservation_size
  try_allocate_and_partially_commit_memory length max_length page_size initial_pages maximum_pages
        wasm shared guard =
      if ltb ((2 ^ 64 - 1) / page_size) maximum_pages
      then ok too_many_pages
      else (let capacity = at_least_one maximum_pages * page_size in
          let size =
            get_wasm_reservation_size k_max_memory64_size guard capacity (is_wasm64 wasm) in
          elim (first_answer (env.reserve size) (env.reserve_again size)) [
            | none ↦ ok not_reserved
            | some (start, retried) ↦
                commit_memory length max_length capacity (u64 (initial_pages * page_size)) size wasm
                  shared guard retried start
          ])

-- The list of isolates of a new memory that is shared is empty.
abbrev pub with_shared_data : Bool → BackingStore → BackingStore
with_shared_data true b = record b { type_specific_data = shared_wasm_memory_data [] }
with_shared_data false b = b

abbrev pub made : Bool → Attempt → Option BackingStore
made is_shared (allocated retried b) = some (with_shared_data is_shared b)
made is_shared not_reserved = none
made is_shared (given_up start size) = none
made is_shared too_many_pages = none

abbrev pub or_else :
    Option BackingStore → Outcome (Option BackingStore) → Outcome (Option BackingStore)
or_else none rest = rest
or_else (some b) rest = ok (some b)

-- The attempts from number `k` on, with these largest numbers of pages.
abbrev pub try_sizes :
    (ℕ → ℕ → Outcome (Option BackingStore)) → ℕ → List ℕ → Outcome (Option BackingStore)
try_sizes attempt k [] = ok none
try_sizes attempt k (n ∷ ns) =
    let rest = try_sizes attempt (k + 1) ns in attempt k n >>= λ o. or_else o rest

abbrev pub reduced : (initial_pages maximum_pages : ℕ) → List ℕ
reduced i m = let delta = (m - i) / 4 in (m - delta) ∷ (m - 2 * delta) ∷ (m - 3 * delta) ∷ i ∷ []

-- The trap handler covers the memory, or the process ends, as where a CHECK fails.
abbrev pub cover :
    (register_covered : (start size : ℕ) → Bool) (reservation : BackingStore → ℕ)
    → Option BackingStore
    → Outcome (Option BackingStore)
cover register_covered reservation none = ok none
cover register_covered reservation (some b) =
    if not b.has_guard_regions
    then ok (some b)
    else if register_covered b.buffer_start (reservation b)
    then ok (some b)
    else check_failed

-- Whether a memory has guard regions: with the trap handler, for memories of 64 bits where that is
-- enabled for them.
abbrev pub guarded : (trap_handler memory64_trap_handling : Bool) → WasmMemoryFlag → Bool
guarded trap_handler memory64_trap_handling wasm =
    trap_handler && (not (is_wasm64 wasm) || memory64_trap_handling)

abbrev same_bool : Bool → Bool → Bool
same_bool true b = b
same_bool false b = not b

-- The bytes of a store by their offsets.
abbrev pub Bytes : Type 0
Bytes = ℕ → ℕ

-- The bytes of the old store, and what the allocation gives, with the bytes that are there at first.
abbrev pub copied :
    BackingStore → (bytes fresh : Bytes) → Option BackingStore → Option (BackingStore × Bytes)
copied old bytes fresh none = none
copied old bytes fresh (some new) =
    if same_bool new.has_guard_regions old.has_guard_regions
    then some (new, λ i. if ltb i old.byte_length then bytes i else fresh i)
    else none

-- The answers to each attempt, and of the trap handler.
module _ (k_max_memory64_size next_id : ℕ) (env : ℕ → SystemAnswers)
    (register_covered : (start size : ℕ) → Bool) (trap_handler memory64_trap_handling : Bool) where
  unfoldable pub try_allocate :
      (initial_pages : ℕ)
      → WasmMemoryFlag
      → Bool
      → (k maximum_pages : ℕ) → Outcome (Option BackingStore)
  unfolding try_allocate_and_partially_commit_memory
  try_allocate i wasm shared k m =
      try_allocate_and_partially_commit_memory k_max_memory64_size next_id (env k)
        (i * k_wasm_page_size) (m * k_wasm_page_size) k_wasm_page_size i m wasm shared
        (guarded trap_handler memory64_trap_handling wasm)
      >>= λ a. ok (made shared a)

  -- With guard regions the size that is reserved is fixed, and no smaller one is tried.
  unfoldable pub allocate_wasm_memory :
      (initial_pages maximum_pages : ℕ)
      → WasmMemoryFlag
      → (is_shared : Bool) → Outcome (Option BackingStore)
  unfolding get_wasm_reservation_size try_allocate
  allocate_wasm_memory i m wasm shared =
      let again =
        if not (guarded trap_handler memory64_trap_handling wasm) && leb 4 (m - i)
        then try_sizes (try_allocate i wasm shared) 1 (reduced i m)
        else ok none in
      try_allocate i wasm shared 0 m
      >>= (λ o. or_else o again)
      >>= cover register_covered (λ b.
        get_wasm_reservation_size k_max_memory64_size b.has_guard_regions b.byte_capacity
          b.is_wasm_memory64)

  unfoldable pub copy_wasm_memory :
      BackingStore
      → (bytes fresh : Bytes) (new_pages max_pages : ℕ) → WasmMemoryFlag
      → Outcome (Option (BackingStore × Bytes))
  unfolding allocate_wasm_memory
  copy_wasm_memory old bytes fresh new_pages max_pages wasm =
      allocate_wasm_memory new_pages max_pages wasm old.is_shared >>= λ o.
      ok (copied old bytes fresh o)
