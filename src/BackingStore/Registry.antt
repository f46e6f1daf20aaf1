-- ===== src/BackingStore/Registry.antt =====
-- `GlobalBackingStoreRegistry` of patches/v8/modified-files/src/objects/backing-store.cc: the memories
-- that are registered, and the isolates that share each of them.
pub mod Isolates
pub mod Stores
pub mod Purge
use webtsan.Prelude.{
  ℕ, zero, suc, ◌+◌, ◌==◌, ◌&&◌, not, Bool, true, false, List, [], ◌∷◌, ◌++◌, Option, none, some,
  update, ltb, if◌then◌else◌, Outcome, ok, undefined, check_failed, ◌>>=◌,
}
use webtsan.Futex.Links.Members.{has}
use webtsan.BackingStore.{
  BackingStore, TypeSpecificData, shared_wasm_memory_data, get_shared_wasm_memory_data,
}

-- The map from the start of a memory to its store, which is a number; a store that is gone is none.
pub record Registry : Type 0 where
  pub map : List (ℕ × ℕ)
  pub stores : ℕ → Option BackingStore

abbrev pub set_store : Registry → ℕ → BackingStore → Registry
set_store r s b = record r { stores = update r.stores s (some b) }

abbrev pub has_key : ℕ → List (ℕ × ℕ) → Bool
has_key a [] = false
has_key a ((k, s) ∷ es) = if a == k then true else has_key a es

abbrev pub erase_key : ℕ → List (ℕ × ℕ) → List (ℕ × ℕ)
erase_key a [] = []
erase_key a ((k, s) ∷ es) = let rest = erase_key a es in if a == k then es else (k, s) ∷ rest

-- A pointer to a store holds it, so one that is gone cannot be registered.
unfoldable pub register : Registry → Option ℕ → Outcome Registry
register r none = ok r
register r (some s) = elim (r.stores s) [
  | none ↦ undefined
  | some b ↦
      if b.buffer_start == 0
      then ok r
      else if not b.is_wasm_memory
      then check_failed
      else if b.globally_registered
      then ok r
      else if has_key b.buffer_start r.map
      then check_failed
      else ok (
          set_store (record r { map = (b.buffer_start, s) ∷ r.map }) s
            (record b { globally_registered = true }))
]

-- The destructor calls it with the store.
unfoldable pub unregister : Registry → BackingStore → Outcome (Registry × BackingStore)
unregister r b =
    if not b.globally_registered
    then ok (r, b)
    else if not b.is_wasm_memory
    then check_failed
    else ok (
      record r { map = erase_key b.buffer_start r.map },
      record b { globally_registered = false },
    )

abbrev pub replace_first : (x y : ℕ) → List ℕ → List ℕ
replace_first x y [] = []
replace_first x y (z ∷ zs) = let rest = replace_first x y zs in if x == z then y ∷ zs else z ∷ rest

-- The last of `x` and `xs`, and all but it.
abbrev pub back : ℕ → List ℕ → ℕ
back x [] = x
back x (y ∷ ys) = back y ys

abbrev pub pop_back : List ℕ → List ℕ
pop_back [] = []
pop_back (x ∷ []) = []
pop_back (x ∷ y ∷ ys) = x ∷ pop_back (y ∷ ys)

-- The place of the isolate takes the last one.
unfoldable pub remove_isolate : ℕ → List ℕ → List ℕ
remove_isolate x [] = []
remove_isolate x (y ∷ ys) =
    if has x (y ∷ ys) then pop_back (replace_first x (back y ys) (y ∷ ys)) else y ∷ ys

unfoldable pub purge_store : ℕ → BackingStore → Outcome BackingStore
unfolding get_shared_wasm_memory_data
purge_store isolate b =
    if not b.is_wasm_memory
    then check_failed
    else if not b.is_shared
    then ok b
    else get_shared_wasm_memory_data b >>= λ isolates. ok (record b {
      type_specific_data = shared_wasm_memory_data (remove_isolate isolate isolates);
    })

abbrev pub purge_alive : ℕ → Registry → ℕ → Option BackingStore → Outcome Registry
purge_alive isolate r s none = ok r
purge_alive isolate r s (some b) = purge_store isolate b >>= λ b1. ok (set_store r s b1)

abbrev pub purge_entry : ℕ → Registry → ℕ → Outcome Registry
purge_entry isolate r s = purge_alive isolate r s (r.stores s)

unfoldable pub purge_entries : ℕ → List (ℕ × ℕ) → Registry → Outcome Registry
purge_entries isolate [] r = ok r
purge_entries isolate ((k, s) ∷ es) r =
    purge_entry isolate r s >>= λ r1. purge_entries isolate es r1

unfoldable pub purge : Registry → ℕ → Outcome Registry
unfolding purge_entries
purge r isolate = purge_entries isolate r.map r

-- The scan for the isolate keeps the last free entry, a null isolate.
pub data Scan : Type 0 where
  present : Scan
  absent : Option ℕ → Scan

abbrev pub scan : ℕ → List ℕ → ℕ → Option ℕ → Scan
scan isolate [] i free = absent free
scan isolate (x ∷ xs) i free =
    let with_entry = scan isolate xs (i + 1) (some i) in
    let without = scan isolate xs (i + 1) free in
    if x == isolate then present else if x == 0 then with_entry else without

abbrev pub set_at : List ℕ → ℕ → ℕ → List ℕ
set_at [] i a = []
set_at (x ∷ xs) zero a = a ∷ xs
set_at (x ∷ xs) (suc i) a = x ∷ set_at xs i a

abbrev pub put_isolate : ℕ → List ℕ → Scan → List ℕ
put_isolate isolate isolates present = isolates
put_isolate isolate isolates (absent none) = isolates ++ (isolate ∷ [])
put_isolate isolate isolates (absent (some i)) = set_at isolates i isolate

unfoldable pub add_isolate : ℕ → List ℕ → List ℕ
add_isolate isolate isolates = put_isolate isolate isolates (scan isolate isolates 0 none)

-- The memory objects of each isolate, to which `add_memory` adds one.
unfoldable pub add_shared_wasm_memory_object :
    (add_memory : List ℕ → ℕ → List ℕ)
    → (ℕ → List ℕ)
    → Registry
    → (isolate s object : ℕ) → Outcome ((ℕ → List ℕ) × Registry)
unfolding get_shared_wasm_memory_data add_isolate
add_shared_wasm_memory_object add_memory memories r isolate s object = elim (r.stores s) [
  | none ↦ undefined
  | some b ↦ get_shared_wasm_memory_data b >>= λ isolates. ok (
    update memories isolate (add_memory (memories isolate) object),
    set_store r s
        (record b { type_specific_data = shared_wasm_memory_data (add_isolate isolate isolates) }),
  )
]

-- An array buffer of a memory object, and a memory object with the length of its store.
pub record ArrayBuffer : Type 0 where
  pub byte_length : ℕ
  pub is_resizable_by_js : Bool

pub record MemoryObject : Type 0 where
  pub array_buffer : Option ArrayBuffer
  pub store_length : ℕ

abbrev pub refresh : MemoryObject → MemoryObject
refresh o = elim (o.array_buffer) [
  | none ↦ o
  | some a ↦
      if not a.is_resizable_by_js && ltb a.byte_length o.store_length
      then record o { array_buffer = none }
      else o
]

-- An object that is gone is none.
unfoldable pub update_shared_wasm_memory_objects :
    (update_instances : MemoryObject → MemoryObject)
    → List (Option MemoryObject)
    → List (Option MemoryObject)
update_shared_wasm_memory_objects update_instances [] = []
update_shared_wasm_memory_objects update_instances (none ∷ os) =
    none ∷ update_shared_wasm_memory_objects update_instances os
update_shared_wasm_memory_objects update_instances (some o ∷ os) =
    some (refresh (update_instances o)) ∷ update_shared_wasm_memory_objects update_instances os

abbrev pub others : ℕ → List ℕ → List ℕ
others isolate [] = []
others isolate (x ∷ xs) = let rest = others isolate xs in if x == isolate then rest else x ∷ rest

-- The isolates that are asked to grow their memory, and the objects of the isolate itself.
unfoldable pub broadcast_shared_wasm_memory_grow :
    (update_instances : MemoryObject → MemoryObject)
    → (isolate : ℕ) → BackingStore
    → List (Option MemoryObject)
    → Outcome (List ℕ × List (Option MemoryObject))
unfolding get_shared_wasm_memory_data update_shared_wasm_memory_objects
broadcast_shared_wasm_memory_grow update_instances isolate b objects =
    get_shared_wasm_memory_data b >>= λ isolates.
    ok (others isolate isolates, update_shared_wasm_memory_objects update_instances objects)
