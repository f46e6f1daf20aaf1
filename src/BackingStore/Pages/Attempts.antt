-- ===== src/BackingStore/Pages/Attempts.antt =====
-- What `TryAllocateAndPartiallyCommitMemory` makes.
use webtsan.Prelude.{
  ℕ, ◌-◌, ◌*◌, ◌/◌, ◌≤◌, ◌==◌, ◌≡◌, ◌≢◌, refl, sym, ap, subst, not, Bool, true, false, [], Option,
  none, some, ltb, Outcome, ok, ◌>>=◌, Returns, if-cases, arith, u64, ◌||◌, ◌&&◌, ◌^◌,
}
use webtsan.BackingStore.{
  BackingStore, new_backing_store, shared_wasm_memory_data, no_data, get_wasm_reservation_size,
}
use webtsan.BackingStore.Grow.{k_wasm_page_size}
use webtsan.BackingStore.Registry.Stores.{IsSound, HasIsolates, isolates_of}
use webtsan.BackingStore.Pages.{
  WasmMemoryFlag, is_wasm, is_wasm64, SystemAnswers, Attempt, allocated, not_reserved, at_least_one,
  first_answer, commit_memory, try_allocate_and_partially_commit_memory, made, with_shared_data,
}

-- A memory of so many pages, which lie within its largest length, and that within its capacity. Where it
-- is shared it has a list of isolates, and no isolate is on it.
abbrev pub IsMade : (initial_pages : ℕ) (is_shared guarded : Bool) → BackingStore → Type 0
IsMade i shared guard b =
    IsSound b
    × (isolates_of b.type_specific_data ≡ [])
    × (b.is_shared ≡ shared)
    × (b.has_guard_regions ≡ guard)
    × (b.byte_length ≡ i * k_wasm_page_size)
    × (b.byte_length ≤ b.max_byte_length)
    × (b.max_byte_length ≤ b.byte_capacity)

abbrev pub IsMadeIf : (initial_pages : ℕ) (is_shared guarded : Bool) → Option BackingStore → Type 0
IsMadeIf i shared guard none = Unit
IsMadeIf i shared guard (some b) = IsMade i shared guard b

-- The parts that do not depend on the list of isolates.
abbrev IsSized : (initial_pages : ℕ) (is_shared guarded : Bool) → BackingStore → Type 0
IsSized i shared guard b =
    (b.is_shared ≡ shared)
    × (b.has_guard_regions ≡ guard)
    × (b.byte_length ≡ i * k_wasm_page_size)
    × (b.byte_length ≤ b.max_byte_length)
    × (b.max_byte_length ≤ b.byte_capacity)

with_shared_data-IsMade :
    (i : ℕ) (shared guard : Bool) (b : BackingStore)
    → b.is_wasm_memory ≡ true
    → b.type_specific_data ≡ no_data
    → IsSized i shared guard b
    → IsMade i shared guard (with_shared_data shared b)
with_shared_data-IsMade i true guard b wasm data_of sized = (
  (wasm, subst (λ (s : Bool). HasIsolates s (shared_wasm_memory_data [])) (sym sized.0) tt),
  refl,
  sized.0,
  sized.1,
  sized.2,
  sized.3,
  sized.4,
)
with_shared_data-IsMade i false guard b wasm data_of sized = (
  (
    wasm,
    subst (λ (s : Bool). HasIsolates s b.type_specific_data) (sym sized.0) (ap isolates_of data_of),
  ),
  ap isolates_of data_of,
  sized.0,
  sized.1,
  sized.2,
  sized.3,
  sized.4,
)

where_reserved :
    (P : Outcome Attempt → Type 0) (o : Option (ℕ × Bool)) (f : ℕ → Bool → Outcome Attempt)
    → P (ok not_reserved)
    → ((start : ℕ) (retried : Bool) → P (f start retried))
    → P (elim o [ none ↦ ok not_reserved | some (start, retried) ↦ f start retried ])
where_reserved P none f n s = n
where_reserved P (some (start, retried)) f n s = s start retried

not_empty : (m : ℕ) → at_least_one m * k_wasm_page_size ≢ 0
not_empty m = ground arith

at_least : (m : ℕ) → m * k_wasm_page_size ≤ at_least_one m * k_wasm_page_size
at_least m = ground arith

pages_le : (i m : ℕ) → i ≤ m → i * k_wasm_page_size ≤ m * k_wasm_page_size
pages_le i m le = omega arith

module _ (i : ℕ) (shared guard : Bool) where
  commit_memory-IsMadeIf :
      (k_max id : ℕ) (env : SystemAnswers) (max_length capacity committed size : ℕ)
      (wasm : WasmMemoryFlag) (retried : Bool) (start : ℕ)
      → is_wasm wasm ≡ true
      → capacity ≢ 0
      → i * k_wasm_page_size ≤ max_length
      → max_length ≤ capacity
      → Returns
          (λ a. IsMadeIf i shared guard (made shared a))
          (commit_memory k_max id env
            (i * k_wasm_page_size)
            max_length
            capacity
            committed
            size
            wasm
            shared
            guard
            retried
            start)
  unfolding commit_memory new_backing_store
  commit_memory-IsMadeIf k_max id env max_length capacity committed size wasm retried start w c l
        h =
      let P : Attempt → Type 0 = λ (a : Attempt). IsMadeIf i shared guard (made shared a) in
      if-cases (Returns P)
        ((committed == 0) || env.commit start committed || env.commit_again start committed)
        (λ _.
          if-cases
            (λ (o : Outcome BackingStore). Returns P (
              o >>= λ b.
              ok (allocated (retried || not ((committed == 0) || env.commit start committed)) b)))
            (is_wasm wasm && (capacity == 0)) (λ e. absurd (ground arith))
            (λ _. with_shared_data-IsMade i shared guard _ w refl (refl, refl, refl, l, h)))
        (λ _. tt)

  pub try_allocate_and_partially_commit_memory-IsMadeIf :
      (k_max id : ℕ) (env : SystemAnswers) (m : ℕ) (wasm : WasmMemoryFlag)
      → is_wasm wasm ≡ true
      → i ≤ m
      → Returns
          (λ a. IsMadeIf i shared guard (made shared a))
          (try_allocate_and_partially_commit_memory k_max id env
            (i * k_wasm_page_size)
            (m * k_wasm_page_size)
            k_wasm_page_size
            i
            m
            wasm
            shared
            guard)
  unfolding try_allocate_and_partially_commit_memory
  try_allocate_and_partially_commit_memory-IsMadeIf k_max id env m wasm w le =
      let P : Attempt → Type 0 = λ (a : Attempt). IsMadeIf i shared guard (made shared a) in
      let capacity = at_least_one m * k_wasm_page_size in
      let committed = u64 (i * k_wasm_page_size) in
      let size = get_wasm_reservation_size k_max guard capacity (is_wasm64 wasm) in
      if-cases (Returns P) (ltb ((2 ^ 64 - 1) / k_wasm_page_size) m) (λ _. tt)
        (λ _.
          where_reserved (Returns P) (first_answer (env.reserve size) (env.reserve_again size))
            (λ start retried.
              commit_memory k_max id env (i * k_wasm_page_size) (m * k_wasm_page_size) capacity
                committed size wasm shared guard retried start)
            tt
            (λ start retried.
              commit_memory-IsMadeIf k_max id env (m * k_wasm_page_size) capacity committed size
                wasm retried start w (not_empty m) (pages_le i m le) (at_least m)))
