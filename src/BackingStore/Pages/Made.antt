-- ===== src/BackingStore/Pages/Made.antt =====
-- What `AllocateWasmMemory` makes.
use webtsan.Prelude.{
  ℕ, ◌+◌, ◌-◌, ◌≤◌, ◌≡◌, not, Bool, true, List, [], ◌∷◌, Option, none, some, leb, Outcome, ok,
  Returns, Returns-bind, if-cases, arith, ◌&&◌,
}
use webtsan.BackingStore.{BackingStore}
use webtsan.BackingStore.Pages.{
  WasmMemoryFlag, is_wasm, SystemAnswers, try_allocate_and_partially_commit_memory, made, or_else,
  try_sizes, reduced, cover, guarded, try_allocate, allocate_wasm_memory,
}
use webtsan.BackingStore.Pages.Attempts.{
  IsMadeIf, try_allocate_and_partially_commit_memory-IsMadeIf,
}

abbrev AllFrom : ℕ → List ℕ → Type 0
AllFrom i [] = Unit
AllFrom i (m ∷ ms) = (i ≤ m) × AllFrom i ms

reduced-AllFrom : (i m : ℕ) → i ≤ m → AllFrom i (reduced i m)
reduced-AllFrom i m le = (omega arith, (omega arith, (omega arith, (omega arith, tt))))

module _ (i : ℕ) (shared guard : Bool) where
  or_else-IsMadeIf :
      (o : Option BackingStore) (rest : Outcome (Option BackingStore))
      → IsMadeIf i shared guard o
      → Returns (IsMadeIf i shared guard) rest
      → Returns (IsMadeIf i shared guard) (or_else o rest)
  or_else-IsMadeIf none rest h r = r
  or_else-IsMadeIf (some b) rest h r = h

  try_sizes-IsMadeIf :
      (attempt : ℕ → ℕ → Outcome (Option BackingStore)) (k : ℕ) (sizes : List ℕ)
      → ((j m : ℕ) → i ≤ m → Returns (IsMadeIf i shared guard) (attempt j m))
      → AllFrom i sizes
      → Returns (IsMadeIf i shared guard) (try_sizes attempt k sizes)
  try_sizes-IsMadeIf attempt k [] each from = tt
  try_sizes-IsMadeIf attempt k (m ∷ ms) each (le, from) =
      Returns-bind (IsMadeIf i shared guard) (IsMadeIf i shared guard) (attempt k m)
        (λ o. or_else o (try_sizes attempt (k + 1) ms)) (each k m le)
        (λ o h.
          or_else-IsMadeIf o (try_sizes attempt (k + 1) ms) h
            (try_sizes-IsMadeIf attempt (k + 1) ms each from))

  cover-IsMadeIf :
      (register_covered : (start size : ℕ) → Bool) (reservation : BackingStore → ℕ)
      (o : Option BackingStore)
      → ((start size : ℕ) → register_covered start size ≡ true)
      → IsMadeIf i shared guard o
      → Returns (IsMadeIf i shared guard) (cover register_covered reservation o)
  cover-IsMadeIf register_covered reservation none registers h = tt
  cover-IsMadeIf register_covered reservation (some b) registers h =
      if-cases (Returns (IsMadeIf i shared guard)) (not b.has_guard_regions) (λ _. h)
        (λ _.
          if-cases (Returns (IsMadeIf i shared guard))
            (register_covered b.buffer_start (reservation b)) (λ _. h)
            (λ e. absurd (cc (e, registers b.buffer_start (reservation b)))))

module _ (k_max_memory64_size id : ℕ) (env : ℕ → SystemAnswers)
    (register_covered : (start size : ℕ) → Bool) (trap_handler memory64_trap_handling : Bool) where
  -- Where the trap handler takes the memory, the allocation of a memory of WebAssembly returns a store
  -- or none, whatever the system answers. A store that is made, at the first size or at a smaller one,
  -- has the pages that it is to start with, within its largest length and that within its capacity, and
  -- where it is shared a list of isolates, which is empty.
  pub allocate_wasm_memory-IsMadeIf :
      (i m : ℕ) (wasm : WasmMemoryFlag) (shared : Bool)
      → ((start size : ℕ) → register_covered start size ≡ true)
      → is_wasm wasm ≡ true
      → i ≤ m
      → Returns (IsMadeIf i shared (guarded trap_handler memory64_trap_handling wasm)) (
          allocate_wasm_memory k_max_memory64_size id env register_covered trap_handler
            memory64_trap_handling i m wasm shared)
  unfolding allocate_wasm_memory try_allocate try_allocate_and_partially_commit_memory
  allocate_wasm_memory-IsMadeIf i m wasm shared registers w le =
      let guard = guarded trap_handler memory64_trap_handling wasm in
      let attempt =
        try_allocate k_max_memory64_size id env register_covered trap_handler memory64_trap_handling
          i wasm shared in
      let P : Option BackingStore → Type 0 = IsMadeIf i shared guard in
      let each : (j n : ℕ) → i ≤ n → Returns P (attempt j n) = λ j n fits.
        Returns-bind (λ a. P (made shared a)) P _ (λ a. ok (made shared a))
          (try_allocate_and_partially_commit_memory-IsMadeIf i shared guard k_max_memory64_size id
            (env j) n wasm w fits)
          (λ a h. h) in
      let again =
        if-cases (Returns P) (not guard && leb 4 (m - i))
          (λ _.
            try_sizes-IsMadeIf i shared guard attempt 1 (reduced i m) each (reduced-AllFrom i m le))
          (λ _. tt) in
      Returns-bind P P _ _
        (Returns-bind P P (attempt 0 m) _ (each 0 m le)
          (λ o h. or_else-IsMadeIf i shared guard o _ h again))
        (λ o h. cover-IsMadeIf i shared guard register_covered _ o registers h)
