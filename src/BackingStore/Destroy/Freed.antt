-- ===== src/BackingStore/Destroy/Freed.antt =====
-- What the destructor gives back of a store that `Allocate` or `WrapAllocation` has made.
use webtsan.Prelude.{
  true, not, ◌&&◌, refl, sym, subst, ℕ, ◌==◌, ◌≡◌, ◌≢◌, Bool, false, List, [], ◌∷◌, ◌++◌, Option,
  none, some, if◌then◌else◌, Outcome, ok, ◌>>=◌, ltb, Returns, Returns-map, Bool-cases, inl, inr,
  if-cases, arith,
}
use webtsan.Caller.{Caller}
use webtsan.Callbacks.{callbacks}
use webtsan.Workers.{destroy_backing_store}
use webtsan.Workers.Buffers.{destroy_backing_store-buffers}
use webtsan.BackingStore.{
  BackingStore, allocate, new_backing_store, set_allocator_from_isolate, wrap_allocation,
  get_v8_api_array_buffer_allocator,
}
use webtsan.BackingStore.Registry.{Registry, unregister}
use webtsan.BackingStore.Destroy.{Release, freed, dropped, deleted, destroy, release_memory}

-- The allocator of a store: the shared one where the isolate has one.
abbrev pub allocator_used : Option ℕ → ℕ → ℕ
allocator_used none a = a
allocator_used (some s) a = s

abbrev pub held : Option ℕ → List Release
held none = []
held (some s) = dropped s ∷ []

-- An allocation that is null gives nothing to free.
abbrev pub given_back : (start : ℕ) → List Release → List Release → List Release
given_back start es held = if start == 0 then held else es ++ held

-- The shadow of a shared store that is somewhere is gone, and that of every other store is as it was.
abbrev pub ShadowsAre : Caller → BackingStore → Caller → Type 0
ShadowsAre x b y =
    (a : ℕ)
    → y.tsan.shadow_buffers a ≡ (
        if b.is_shared && not (b.buffer_start == 0) && (a == b.buffer_start)
        then none
        else x.tsan.shadow_buffers a)

abbrev pub IsGivenBack :
    Caller → Registry → List Release → BackingStore → Caller × Registry × List Release → Type 0
IsGivenBack x r es b (y, r1, es1) = (es1 ≡ es) × (r1 ≡ r) × ShadowsAre x b y

-- A page where the destructor is called, with the flag set and the callbacks registered: the caller, while
-- the detector is enabled, and the registry.
module _ (k_max_memory64_size : ℕ) (x : Caller) (r : Registry) (on : x.tsan.enabled ≡ true) where
  -- The destructor returns, the shadow is removed, the registry is as before, and this is given back.
  abbrev pub GivesBack : List Release → BackingStore → Type 0
  GivesBack es b = Returns (IsGivenBack x r es b) (destroy k_max_memory64_size true callbacks x r b)

  -- A store that is made is shared where it is to be.
  abbrev pub GivesBackIf : Bool → (ℕ → List Release) → Option BackingStore → Type 0
  GivesBackIf shared es none = Unit
  GivesBackIf shared es (some b) = (b.is_shared ≡ shared) × GivesBack (es b.buffer_start) b

  -- The same by the hook of the destructor.
  abbrev Ends : List Release → BackingStore → Type 0
  Ends es b =
      destroy k_max_memory64_size true callbacks x r b
      ≡ ok (destroy_backing_store true callbacks x b.is_shared b.buffer_start, r, es)

  abbrev EndsIf : Bool → (ℕ → List Release) → Option BackingStore → Type 0
  EndsIf shared es none = Unit
  EndsIf shared es (some b) = (b.is_shared ≡ shared) × Ends (es b.buffer_start) b

  Ends-GivesBack : (es : List Release) (b : BackingStore) → Ends es b → GivesBack es b
  Ends-GivesBack es b same =
      subst (Returns (IsGivenBack x r es b)) (sym same)
        (refl, refl, λ a. destroy_backing_store-buffers x b.is_shared b.buffer_start a on)

  EndsIf-GivesBackIf :
      (shared : Bool) (es : ℕ → List Release) (o : Option BackingStore)
      → EndsIf shared es o
      → GivesBackIf shared es o
  EndsIf-GivesBackIf shared es none h = h
  EndsIf-GivesBackIf shared es (some b) (same, h) = (same, Ends-GivesBack (es b.buffer_start) b h)

  Ends-allocated :
      (id start length a : ℕ) (shared : Bool) (o : Option ℕ)
      → a ≢ 0
      → allocator_used o a ≢ 0
      → Returns
          (EndsIf shared (λ s. given_back s (freed (allocator_used o a) s length ∷ []) (held o)))
          (new_backing_store id start length length length shared false false false false false
              false false
            >>= λ b. ok (some (set_allocator_from_isolate b o a)))
  unfolding new_backing_store set_allocator_from_isolate destroy unregister
      get_v8_api_array_buffer_allocator release_memory
  Ends-allocated id start length a shared none p q =
      let used : (a == 0) ≡ false = ground arith in
      (refl, elim (Bool-cases (start == 0)) [ inl e ↦ simp (e, used) | inr e ↦ simp (e, used) ])
  Ends-allocated id start length a shared (some s) p q =
      let used : (s == 0) ≡ false = ground arith in
      (refl, elim (Bool-cases (start == 0)) [ inl e ↦ simp (e, used) | inr e ↦ simp (e, used) ])

  allocate-Ends :
      (id max_allocation_size length a : ℕ) (allocate_buffer : ℕ → ℕ) (shared : Bool) (o : Option ℕ)
      → a ≢ 0
      → allocator_used o a ≢ 0
      → Returns
          (EndsIf shared (λ s. given_back s (freed (allocator_used o a) s length ∷ []) (held o)))
          (allocate id max_allocation_size allocate_buffer o a length shared)
  unfolding allocate
  allocate-Ends id max_allocation_size length a allocate_buffer shared o p q =
      let P : Option BackingStore → Type 0 =
        EndsIf shared (λ s. given_back s (freed (allocator_used o a) s length ∷ []) (held o)) in
      let Q : Outcome (Option BackingStore) → Type 0 = Returns P in
      if-cases Q (a == 0) (λ e. absurd (ground arith))
        (λ _.
          if-cases Q (ltb max_allocation_size length) (λ _. tt)
            (λ _.
              if-cases Q (length == 0) (λ _. Ends-allocated id 0 length a shared o p q)
                (λ _.
                  if-cases Q (allocate_buffer length == 0) (λ _. tt)
                    (λ _. Ends-allocated id (allocate_buffer length) length a shared o p q))))

  -- With the flag set, the callbacks registered, the detector enabled, and allocators that are not null: an
  -- allocation returns a store, shared as it is asked for, or none. The destructor of the store returns, removes the shadow of the store
  -- where it is shared and has memory, leaves the shadows of all others and the registry as they were, and
  -- gives back the memory, where it has any, with its length, once, to the allocator of the
  -- isolate, the shared one where there is one, and then drops that one.
  pub allocate-GivesBack :
      (id max_allocation_size length a : ℕ) (allocate_buffer : ℕ → ℕ) (shared : Bool) (o : Option ℕ)
      → a ≢ 0
      → allocator_used o a ≢ 0
      → Returns
          (GivesBackIf shared
            (λ s. given_back s (freed (allocator_used o a) s length ∷ []) (held o)))
          (allocate id max_allocation_size allocate_buffer o a length shared)
  allocate-GivesBack id max_allocation_size length a allocate_buffer shared o p q =
      let es : ℕ → List Release =
        λ s. given_back s (freed (allocator_used o a) s length ∷ []) (held o) in
      Returns-map (EndsIf shared es) (GivesBackIf shared es) _ (EndsIf-GivesBackIf shared es)
        (allocate-Ends id max_allocation_size length a allocate_buffer shared o p q)

  wrap_allocation-Ends :
      (id empty_callback start length callback argument : ℕ) (shared : Bool)
      → start ≢ 0
      → Returns
          (Ends (deleted callback start length argument ∷ []))
          (wrap_allocation id empty_callback start length callback argument shared)
  unfolding wrap_allocation new_backing_store destroy unregister release_memory
  wrap_allocation-Ends id empty_callback start length callback argument shared p =
      let some_start : (start == 0) ≡ false = ground arith in simp (some_start)

  -- A store that wraps an allocation hands it to its deleter, with its length and the argument, once.
  pub wrap_allocation-GivesBack :
      (id empty_callback start length callback argument : ℕ) (shared : Bool)
      → start ≢ 0
      → Returns
          (GivesBack (deleted callback start length argument ∷ []))
          (wrap_allocation id empty_callback start length callback argument shared)
  wrap_allocation-GivesBack id empty_callback start length callback argument shared p =
      Returns-map (Ends (deleted callback start length argument ∷ []))
        (GivesBack (deleted callback start length argument ∷ [])) _
        (Ends-GivesBack (deleted callback start length argument ∷ []))
        (wrap_allocation-Ends id empty_callback start length callback argument shared p)
