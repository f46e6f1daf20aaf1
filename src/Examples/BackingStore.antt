-- ===== src/Examples/BackingStore.antt =====
-- Instances of the theorems on backing stores: memories that start at 4096.
use webtsan.Prelude.{
  ◌||◌, ◌≤◌, ltb, if-cases, ℕ, ◌+◌, ◌/◌, ◌==◌, ◌≡◌, refl, true, false, List, [], ◌∷◌, Option, none,
  some, arith, Returns, Bool, if◌then◌else◌,
}
use webtsan.Caller.{Caller, caller, with_tsan}
use webtsan.Shadow.{shadow_buffer}
use webtsan.TestData.{two_threads}
use webtsan.BackingStore.{BackingStore, shared_wasm_memory_data, allocate}
use webtsan.BackingStore.Grow.{Turn, grown, grow_wasm_memory_in_place}
use webtsan.BackingStore.Grow.Exchange.{IsGrowth, page_limit, grow_wasm_memory_in_place-IsGrowth}
use webtsan.BackingStore.Grow.Order.{
  IsOver, grow_wasm_memory_in_place_apart, grow_wasm_memory_in_place-IsOver,
}
use webtsan.BackingStore.Resize.{Content, IsResized, resize_in_place, resize_in_place-IsResized}
use webtsan.BackingStore.Pages.{SystemAnswers, k_wasm_memory32, guarded, allocate_wasm_memory}
use webtsan.BackingStore.Pages.Attempts.{IsMadeIf}
use webtsan.BackingStore.Pages.Made.{allocate_wasm_memory-IsMadeIf}
use webtsan.BackingStore.Registry.{Registry, purge}
use webtsan.BackingStore.Registry.Purge.{IsPurged, IsSoundIf, purge-IsPurged}
use webtsan.BackingStore.Destroy.{freed}
use webtsan.BackingStore.Destroy.Freed.{GivesBackIf, held, given_back, allocate-GivesBack}

-- A turn that sees this length and may change it.
abbrev seen : ℕ → Turn
seen n = record { permitted = true; present = n; spurious = false }

-- A memory of 10 pages, from 1 page by 2 pages; another thread grows it to 2 pages in between.
abbrev turns : List Turn
turns = seen 131072 ∷ seen 131072 ∷ []

grow_twice : grow_wasm_memory_in_place 655360 65536 2 16 turns ≡ grown 2 262144
unfolding grow_wasm_memory_in_place
grow_twice = refl

grow_again : grow_wasm_memory_in_place 655360 262144 1 16 (seen 262144 ∷ []) ≡ grown 4 327680
unfolding grow_wasm_memory_in_place
grow_again = refl

grow_wasm_memory_in_place-IsGrowth_example :
    IsGrowth 2
      (page_limit 655360 16)
      turns
      65536
      (grow_wasm_memory_in_place 655360 65536 2 16 turns)
grow_wasm_memory_in_place-IsGrowth_example =
    grow_wasm_memory_in_place-IsGrowth 655360 65536 2 16 turns (omega arith)

grow_wasm_memory_in_place_apart_example : 2 + 2 ≤ 4
grow_wasm_memory_in_place_apart_example =
    grow_wasm_memory_in_place_apart 655360 65536 262144 2 1 16 16 2 4 262144 327680 turns
      (seen 262144 ∷ []) (omega arith) (omega arith) grow_twice (omega arith, tt) grow_again

grow_wasm_memory_in_place-IsOver_example :
    IsOver
      (grow_wasm_memory_in_place 655360 65536 2 16 (seen 65537 ∷ seen 131072 ∷ seen 131072 ∷ []))
grow_wasm_memory_in_place-IsOver_example =
    grow_wasm_memory_in_place-IsOver 655360 65536 2 16 (seen 65537 ∷ []) (seen 131072) (seen 131072)
      [] refl refl

-- A buffer of 5000 bytes, each 7, in pages of 4096 bytes.
abbrev content : Content
content = record { byte_length = 5000; bytes = λ i. if ltb i 5000 then 7 else 0 }

abbrev round_up : ℕ → Option ℕ
round_up n = some ((n + 4095) / 4096)

abbrev permits : ℕ → ℕ → Bool
permits a b = true

resize_in_place-IsResized_example :
    Returns (IsResized content 100) (resize_in_place round_up permits permits content 100)
resize_in_place-IsResized_example =
    resize_in_place-IsResized round_up permits permits content 100 2 1 refl refl
      (λ i h. ground arith)

-- A memory that isolates 5, 6 and 7 share.
abbrev memory : BackingStore
memory = record {
  buffer_start = 4096;
  byte_length = 65536;
  max_byte_length = 65536;
  byte_capacity = 655360;
  id = 1;
  type_specific_data = shared_wasm_memory_data (5 ∷ 6 ∷ 7 ∷ []);
  is_shared = true;
  is_resizable_by_js = false;
  is_immutable = false;
  is_wasm_memory = true;
  is_wasm_memory64 = false;
  has_guard_regions = true;
  custom_deleter = false;
  empty_deleter = false;
  globally_registered = true;
}

abbrev registry : Registry
registry = record { map = (4096, 1) ∷ []; stores = λ s. if s == 1 then some memory else none }

purge-IsPurged_example : Returns (IsPurged 5 registry.map registry) (purge registry 5)
purge-IsPurged_example =
    purge-IsPurged registry 5
      (λ s h. if-cases IsSoundIf (s == 1) (λ _. (refl, (refl, (refl, (refl, tt))))) (λ _. tt))

-- A detector that is enabled, with a shadow for the store at 8192 and for one at 4096.
abbrev shadowed : Caller
shadowed = with_tsan caller (record two_threads {
  shadow_buffers = λ a. if (a == 8192) || (a == 4096) then some (shadow_buffer a 64) else none;
})

allocate-GivesBack_example :
    Returns
      (GivesBackIf 1073741824 shadowed registry refl true
        (λ s. given_back s (freed 9 s 64 ∷ []) (held (some 9))))
      (allocate 2 1048576 (λ n. 8192) (some 9) 8 64 true)
allocate-GivesBack_example =
    allocate-GivesBack 1073741824 shadowed registry refl 2 1048576 64 8 (λ n. 8192) true (some 9)
      (λ e. omega (arith, e)) (λ e. omega (arith, e))

-- The system has no room for 16 pages, and some for fewer.
abbrev answers : ℕ → SystemAnswers
answers k = record {
  reserve = λ size. if ltb size 1048576 then some 4096 else none;
  reserve_again = λ size. none;
  commit = λ start size. true;
  commit_again = λ start size. true;
}

allocate_wasm_memory-IsMadeIf_example :
    Returns
      (IsMadeIf 2 true (guarded false false k_wasm_memory32))
      (allocate_wasm_memory 1073741824 2 answers permits false false 2 16 k_wasm_memory32 true)
allocate_wasm_memory-IsMadeIf_example =
    allocate_wasm_memory-IsMadeIf 1073741824 2 answers permits false false 2 16 k_wasm_memory32 true
      (λ a b. refl) refl (omega arith)
