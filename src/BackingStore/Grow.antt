-- ===== src/BackingStore/Grow.antt =====
-- `GrowWasmMemoryInPlace` and `GrowInPlace` of
-- patches/v8/modified-files/src/objects/backing-store.cc: loops that compare and exchange the length.
pub mod Exchange
pub mod Order
use webtsan.Prelude.{
  ℕ, ◌+◌, ◌-◌, ◌*◌, ◌/◌, ◌==◌, ◌&&◌, not, Bool, List, [], ◌∷◌, Option, none, some, if◌then◌else◌,
  ltb, min, Outcome, ok, check_failed,
}

abbrev pub k_wasm_page_size : ℕ
k_wasm_page_size = 65536

-- What a turn of the loop meets: whether the system permits the access to the pages, the length that
-- the store has when it is compared, which other threads may have changed, and whether the exchange
-- fails although the lengths are equal, as a weak one may.
pub record Turn : Type 0 where
  pub permitted : Bool
  pub present : ℕ
  pub spurious : Bool

abbrev pub exchanges : Turn → ℕ → Bool
exchanges r old = (r.present == old) && not r.spurious

-- The length before, in pages, and the new length in bytes; a refusal changes no length.
pub data Growth : Type 0 where
  grown : (old_pages new_length : ℕ) → Growth
  refused : Growth
  pending : Growth

-- A turn, with the rest of the loop on the length that it has seen.
unfoldable pub grow_turn : (delta max_pages : ℕ) → Turn → (ℕ → Growth) → ℕ → Growth
grow_turn delta max_pages r rest old =
    if ltb (max_pages - delta) (old / k_wasm_page_size)
    then refused
    else if not r.permitted
    then refused
    else if exchanges r old
    then grown (old / k_wasm_page_size) ((old / k_wasm_page_size + delta) * k_wasm_page_size)
    else rest r.present

unfoldable pub grow_loop : (delta max_pages : ℕ) → List Turn → ℕ → Growth
unfolding grow_turn
grow_loop delta max_pages [] old = pending
grow_loop delta max_pages (r ∷ rs) old =
    grow_turn delta max_pages r (grow_loop delta max_pages rs) old

-- The capacity of the store, the length that is read first, and the turns.
unfoldable pub grow_wasm_memory_in_place :
    (byte_capacity old_length delta_pages max_pages : ℕ) → List Turn → Growth
unfolding grow_loop
grow_wasm_memory_in_place byte_capacity old_length delta_pages max_pages turns =
    if delta_pages == 0
    then grown (old_length / k_wasm_page_size) old_length
    else if ltb (min max_pages (byte_capacity / k_wasm_page_size)) delta_pages
    then refused
    else grow_loop delta_pages (min max_pages (byte_capacity / k_wasm_page_size)) turns old_length

-- `ResizeOrGrowResult`.
pub data ResizeOrGrowResult : Type 0 where
  k_success : ResizeOrGrowResult
  k_failure : ResizeOrGrowResult
  k_race : ResizeOrGrowResult

-- `GrowInPlace` on a shared store: none while it has not returned.
unfoldable pub grow_in_place_loop :
    (new_byte_length : ℕ) → List Turn → ℕ → Option ResizeOrGrowResult
grow_in_place_loop new_byte_length [] old = none
grow_in_place_loop new_byte_length (r ∷ rs) old =
    let rest = grow_in_place_loop new_byte_length rs r.present in
    if ltb new_byte_length old
    then some k_race
    else if new_byte_length == old
    then some k_success
    else if not r.permitted
    then some k_failure
    else if exchanges r old
    then some k_success
    else rest

-- With the number of pages that the length comes to, where it is not too large.
unfoldable pub grow_in_place :
    (new_committed_pages : Option ℕ) (new_byte_length : ℕ)
    → List Turn
    → ℕ
    → Outcome (Option ResizeOrGrowResult)
unfolding grow_in_place_loop
grow_in_place none new_byte_length turns old = check_failed
grow_in_place (some pages) new_byte_length turns old =
    ok (grow_in_place_loop new_byte_length turns old)
