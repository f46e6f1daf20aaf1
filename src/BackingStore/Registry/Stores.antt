-- ===== src/BackingStore/Registry/Stores.antt =====
-- `Purge` on one memory that is registered.
use webtsan.Prelude.{
  ℕ, ◌==◌, ◌≡◌, sym, subst, Bool, true, false, not, ◌&&◌, List, [], arith, ok, Returns, ◌∙◌, ap,
}
use webtsan.Futex.Links.Members.{has, Distinct}
use webtsan.BackingStore.{
  BackingStore, TypeSpecificData, no_data, allocator, allocator_shared, shared_wasm_memory_data,
  deleter, get_shared_wasm_memory_data,
}
use webtsan.BackingStore.Registry.{purge_store, remove_isolate}
use webtsan.BackingStore.Registry.Isolates.{remove_isolate-IsTaken}

abbrev pub isolates_of : TypeSpecificData → List ℕ
isolates_of no_data = []
isolates_of (allocator a) = []
isolates_of (allocator_shared a) = []
isolates_of (shared_wasm_memory_data isolates) = isolates
isolates_of (deleter f a) = []

abbrev pub HasIsolates : Bool → TypeSpecificData → Type 0
HasIsolates false d = isolates_of d ≡ []
HasIsolates true no_data = ⊥
HasIsolates true (allocator a) = ⊥
HasIsolates true (allocator_shared a) = ⊥
HasIsolates true (shared_wasm_memory_data isolates) = Distinct isolates
HasIsolates true (deleter f a) = ⊥

-- A memory of WebAssembly, where it is shared with the list of its isolates, without repetition.
abbrev pub IsSound : BackingStore → Type 0
IsSound b = (b.is_wasm_memory ≡ true) × HasIsolates b.is_shared b.type_specific_data

abbrev pub IsRemoved : ℕ → List ℕ → List ℕ → Type 0
IsRemoved x xs ys = (y : ℕ) → has y ys ≡ (not (y == x) && has y xs)

nobody-IsRemoved : (x : ℕ) (xs : List ℕ) → xs ≡ [] → IsRemoved x xs xs
nobody-IsRemoved x xs none_there y = let out = ap (has y) none_there in ground (arith, out)

unfoldable pub IsStorePurged : ℕ → BackingStore → BackingStore → Type 0
IsStorePurged x b b1 =
    IsSound b1 × IsRemoved x (isolates_of b.type_specific_data) (isolates_of b1.type_specific_data)

with_isolates : BackingStore → List ℕ → BackingStore
with_isolates b xs = record b { type_specific_data = shared_wasm_memory_data xs }

purge_store-unshared :
    (x : ℕ) (b : BackingStore)
    → b.is_wasm_memory ≡ true
    → b.is_shared ≡ false
    → purge_store x b ≡ ok b
unfolding purge_store
purge_store-unshared x b wasm shared = simp (wasm, shared)

purge_store-shared :
    (x : ℕ) (b : BackingStore) (xs : List ℕ)
    → b.is_wasm_memory ≡ true
    → b.is_shared ≡ true
    → b.type_specific_data ≡ shared_wasm_memory_data xs
    → purge_store x b ≡ ok (with_isolates b (remove_isolate x xs))
unfolding with_isolates purge_store get_shared_wasm_memory_data
purge_store-shared x b xs wasm shared same = simp (wasm, shared, same)

pub purge_kind :
    (x : ℕ) (b : BackingStore) (d : TypeSpecificData) (shared : Bool)
    → b.is_wasm_memory ≡ true
    → b.is_shared ≡ shared
    → HasIsolates shared d
    → b.type_specific_data ≡ d
    → Returns (IsStorePurged x b) (purge_store x b)
unfolding IsStorePurged with_isolates
purge_kind x b d false wasm shared h same =
    let none_there : isolates_of b.type_specific_data ≡ [] = ap isolates_of same ∙ h in
    subst (Returns (IsStorePurged x b)) (sym (purge_store-unshared x b wasm shared)) (
      (wasm, subst (λ (s : Bool). HasIsolates s b.type_specific_data) (sym shared) none_there),
      nobody-IsRemoved x (isolates_of b.type_specific_data) none_there,
    )
purge_kind x b (shared_wasm_memory_data xs) true wasm shared h same =
    let (once, taken) = remove_isolate-IsTaken x xs h in
    subst (Returns (IsStorePurged x b)) (sym (purge_store-shared x b xs wasm shared same)) (
      (
        wasm,
        subst (λ (s : Bool). HasIsolates s (shared_wasm_memory_data (remove_isolate x xs)))
            (sym shared) once,
      ),
      subst (λ (d : TypeSpecificData). IsRemoved x (isolates_of d) (remove_isolate x xs)) (sym same)
          taken,
    )
purge_kind x b no_data true wasm shared h same = absurd h
purge_kind x b (allocator a) true wasm shared h same = absurd h
purge_kind x b (allocator_shared a) true wasm shared h same = absurd h
purge_kind x b (deleter f a) true wasm shared h same = absurd h
