-- ===== src/ExternalRefs/StackSwitching/Innermost.antt =====
-- Which stack `find_wasmfx_handler_stack` of
-- patches/v8/modified-files/src/wasm/wasm-external-refs.cc finds, said of the entries of the tables.
use webtsan.Prelude.{
  ℕ, ◌+◌, ◌&&◌, ◌≡◌, ◌≤◌, ◌⊎◌, inl, inr, refl, sym, subst, ap, Bool, true, false, Option, none,
  some, List, [], ◌∷◌, length, arith, if-cases, Returns, ◌∙◌,
}
use webtsan.ExternalRefs.StackSwitching.{
  Stacks, WasmCode, EffectHandler, tag_handler, switch_handler, set_stack, handles, find_handler,
  Target, target, jump_to, take_target, find_wasmfx_handler_stack,
}
use webtsan.ExternalRefs.StackSwitching.Handlers.{
  Level, LeadsUp, innermost, find_wasmfx_handler_stack-innermost,
}

-- An entry of the table of a function handles a tag at a call: the call, the tag and the kind are right.
abbrev pub Handles : WasmCode → (pc wanted_tag : ℕ) (is_switch : Bool) → EffectHandler → Type 0
Handles code pc wanted true (tag_handler c t h) = ⊥
Handles code pc wanted false (tag_handler c t h) =
    (code.instruction_start + c ≡ pc) × (code.tags_table t ≡ wanted)
Handles code pc wanted true (switch_handler c t) =
    (code.instruction_start + c ≡ pc) × (code.tags_table t ≡ wanted)
Handles code pc wanted false (switch_handler c t) = ⊥

-- No entry does.
abbrev pub NoneHandles :
    WasmCode → (pc wanted_tag : ℕ) (is_switch : Bool) → List EffectHandler → Type 0
NoneHandles code pc wanted is_switch [] = Unit
NoneHandles code pc wanted is_switch (h ∷ hs) =
    (¬ Handles code pc wanted is_switch h) × NoneHandles code pc wanted is_switch hs

-- The first entry that does is this one.
abbrev pub FirstHandles :
    WasmCode → (pc wanted_tag : ℕ) (is_switch : Bool) → EffectHandler → List EffectHandler → Type 0
FirstHandles code pc wanted is_switch e [] = ⊥
FirstHandles code pc wanted is_switch e (h ∷ hs) =
    ((h ≡ e) × Handles code pc wanted is_switch h)
    ⊎ ((¬ Handles code pc wanted is_switch h) × FirstHandles code pc wanted is_switch e hs)

abbrev pub LevelHandles : (wanted_tag : ℕ) (is_switch : Bool) → EffectHandler → Level → Type 0
LevelHandles wanted is_switch e l =
    FirstHandles l.code l.pc wanted is_switch e l.code.effect_handlers

abbrev pub LevelPasses : (wanted_tag : ℕ) (is_switch : Bool) → Level → Type 0
LevelPasses wanted is_switch l = NoneHandles l.code l.pc wanted is_switch l.code.effect_handlers

-- No stack on the way has such an entry.
abbrev pub AllPass : (wanted_tag : ℕ) (is_switch : Bool) → List Level → Type 0
AllPass wanted is_switch [] = Unit
AllPass wanted is_switch (l ∷ ls) = LevelPasses wanted is_switch l × AllPass wanted is_switch ls

-- The first stack on the way with such an entry is `l`, and `e` is its first one.
abbrev pub FirstLevel :
    (wanted_tag : ℕ) (is_switch : Bool) → EffectHandler → Level → List Level → Type 0
FirstLevel wanted is_switch e l [] = ⊥
FirstLevel wanted is_switch e l (k ∷ ks) =
    ((k ≡ l) × LevelHandles wanted is_switch e k)
    ⊎ (LevelPasses wanted is_switch k × FirstLevel wanted is_switch e l ks)

-- What becomes of the registers of a stack: for an entry of a tag those of the caller, at the address of the
-- handler; for one of a switch nothing.
abbrev pub HasRegisters : EffectHandler → Level → Stacks → Stacks → Type 0
HasRegisters (tag_handler c t h) l w w1 =
    w1
    ≡ set_stack w l.number
        (record (w.stacks l.number) { pc = l.code.instruction_start + h; sp = l.sp; fp = l.fp })
HasRegisters (switch_handler c t) l w w1 = w1 ≡ w

-- What the search comes to: the stack, and the stacks as they are then.
abbrev pub IsInnermost :
    (wanted_tag : ℕ) (is_switch : Bool) → List Level → Stacks → Option (ℕ × Stacks) → Type 0
IsInnermost wanted is_switch ls w none = AllPass wanted is_switch ls
IsInnermost wanted is_switch ls w (some (s, w1)) =
    (e : EffectHandler) × (l : Level) × FirstLevel wanted is_switch e l ls
    × (s ≡ l.number)
    × HasRegisters e l w w1

abbrev address : WasmCode → EffectHandler → Option ℕ
address code (tag_handler c t h) = some (code.instruction_start + h)
address code (switch_handler c t) = none

-- What the search in one table comes to.
abbrev FoundIn :
    WasmCode
    → (pc wanted_tag : ℕ) (is_switch : Bool) → List EffectHandler
    → Option (Option ℕ)
    → Type 0
FoundIn code pc wanted is_switch hs none = NoneHandles code pc wanted is_switch hs
FoundIn code pc wanted is_switch hs (some o) =
    (e : EffectHandler) × FirstHandles code pc wanted is_switch e hs × (o ≡ address code e)

FoundIn-later :
    (code : WasmCode) (pc wanted : ℕ) (is_switch : Bool) (h : EffectHandler)
    (hs : List EffectHandler) (o : Option (Option ℕ))
    → (¬ Handles code pc wanted is_switch h)
    → FoundIn code pc wanted is_switch hs o
    → FoundIn code pc wanted is_switch (h ∷ hs) o
FoundIn-later code pc wanted is_switch h hs none misses f = (misses, f)
FoundIn-later code pc wanted is_switch h hs (some o) misses (e, first, same) =
    (e, inr (misses, first), same)

handles-true :
    (code : WasmCode) (pc wanted c t : ℕ)
    → handles code pc wanted c t ≡ true
    → (code.instruction_start + c ≡ pc) × (code.tags_table t ≡ wanted)
handles-true code pc wanted c t h = (ground arith, ground arith)

handles-false :
    (code : WasmCode) (pc wanted c t : ℕ)
    → handles code pc wanted c t ≡ false
    → ¬ ((code.instruction_start + c ≡ pc) × (code.tags_table t ≡ wanted))
handles-false code pc wanted c t h (call, tag) = ground arith

and_true : (b c : Bool) → (b && true) ≡ c → b ≡ c
and_true true c h = h
and_true false c h = h

and_false : (b : Bool) → (b && false) ≡ true → ⊥
and_false true h = cc
and_false false h = cc

find_handler-FoundIn :
    (code : WasmCode) (pc wanted : ℕ) (is_switch : Bool) (hs : List EffectHandler)
    → FoundIn code pc wanted is_switch hs (find_handler code pc wanted is_switch hs)
unfolding find_handler
find_handler-FoundIn code pc wanted is_switch [] = tt
find_handler-FoundIn code pc wanted false (tag_handler c t h ∷ hs) =
    if-cases (FoundIn code pc wanted false (tag_handler c t h ∷ hs))
      (handles code pc wanted c t && true)
      (λ e. (tag_handler c t h, inl (refl, handles-true code pc wanted c t (and_true _ _ e)), refl))
      (λ e.
        FoundIn-later code pc wanted false (tag_handler c t h) hs _
          (handles-false code pc wanted c t (and_true _ _ e))
          (find_handler-FoundIn code pc wanted false hs))
find_handler-FoundIn code pc wanted true (tag_handler c t h ∷ hs) =
    if-cases (FoundIn code pc wanted true (tag_handler c t h ∷ hs))
      (handles code pc wanted c t && false) (λ e. absurd (and_false _ e))
      (λ _.
        FoundIn-later code pc wanted true (tag_handler c t h) hs _ (λ absent. absent)
          (find_handler-FoundIn code pc wanted true hs))
find_handler-FoundIn code pc wanted true (switch_handler c t ∷ hs) =
    if-cases (FoundIn code pc wanted true (switch_handler c t ∷ hs)) (handles code pc wanted c t)
      (λ e. (switch_handler c t, inl (refl, handles-true code pc wanted c t e), refl))
      (λ e.
        FoundIn-later code pc wanted true (switch_handler c t) hs _
          (handles-false code pc wanted c t e) (find_handler-FoundIn code pc wanted true hs))
find_handler-FoundIn code pc wanted false (switch_handler c t ∷ hs) =
    FoundIn-later code pc wanted false (switch_handler c t) hs _ (λ absent. absent)
      (find_handler-FoundIn code pc wanted false hs)

-- What the search through the stacks comes to.
abbrev IsFirst : (wanted_tag : ℕ) (is_switch : Bool) → List Level → Option Target → Type 0
IsFirst wanted is_switch ls none = AllPass wanted is_switch ls
IsFirst wanted is_switch ls (some (s, jump)) =
    (e : EffectHandler) × (l : Level) × FirstLevel wanted is_switch e l ls
    × ((s, jump) ≡ target l.number l.sp l.fp (address l.code e))

IsFirst-level :
    (wanted : ℕ) (is_switch : Bool) (l : Level) (ls : List Level) (o : Option (Option ℕ))
    (rest : Option Target)
    → FoundIn l.code l.pc wanted is_switch l.code.effect_handlers o
    → IsFirst wanted is_switch ls rest
    → IsFirst wanted is_switch
        (l ∷ ls)
        (elim o [ some h ↦ some (target l.number l.sp l.fp h) | none ↦ rest ])
IsFirst-level wanted is_switch l ls none none f r = (f, r)
IsFirst-level wanted is_switch l ls none (some (s, jump)) f (e, k, first, same) =
    (e, k, inr (f, first), same)
IsFirst-level wanted is_switch l ls (some none) rest (e, first, same) r =
    (e, l, inl (refl, first), ap (target l.number l.sp l.fp) same)
IsFirst-level wanted is_switch l ls (some (some pc)) rest (e, first, same) r =
    (e, l, inl (refl, first), ap (target l.number l.sp l.fp) same)

innermost-IsFirst :
    (wanted : ℕ) (is_switch : Bool) (ls : List Level)
    → IsFirst wanted is_switch ls (innermost wanted is_switch ls)
unfolding innermost
innermost-IsFirst wanted is_switch [] = tt
innermost-IsFirst wanted is_switch (l ∷ ls) =
    IsFirst-level wanted is_switch l ls
      (find_handler l.code l.pc wanted is_switch l.code.effect_handlers)
      (innermost wanted is_switch ls)
      (find_handler-FoundIn l.code l.pc wanted is_switch l.code.effect_handlers)
      (innermost-IsFirst wanted is_switch ls)

HasRegisters-target :
    (w : Stacks) (e : EffectHandler) (l : Level)
    → HasRegisters e l w (
        jump_to w
          (target l.number l.sp l.fp (address l.code e)).0
          (target l.number l.sp l.fp (address l.code e)).1)
HasRegisters-target w (tag_handler c t h) l = refl
HasRegisters-target w (switch_handler c t) l = refl

target-number :
    (l : Level) (e : EffectHandler) → (target l.number l.sp l.fp (address l.code e)).0 ≡ l.number
target-number l (tag_handler c t h) = refl
target-number l (switch_handler c t) = refl

IsFirst-IsInnermost :
    (wanted : ℕ) (is_switch : Bool) (ls : List Level) (w : Stacks) (o : Option Target)
    → IsFirst wanted is_switch ls o
    → IsInnermost wanted is_switch ls w (take_target w o)
IsFirst-IsInnermost wanted is_switch ls w none h = h
IsFirst-IsInnermost wanted is_switch ls w (some (s, jump)) (e, l, first, same) = (
  e,
  l,
  first,
  ap (λ (t : Target). t.0) same ∙ target-number l e,
  subst (λ (t : Target). HasRegisters e l w (jump_to w t.0 t.1)) (sym same)
      (HasRegisters-target w e l),
)

-- Where the parents of the active stack lead through stacks that WebAssembly left, up to the central one,
-- with fuel for them, the search returns. It finds the first of them of which the table has an entry for the
-- tag at the call, of the kind that is wanted. For the first such entry of a tag the stack gets the registers
-- of the caller and the address of the handler, and nothing else changes; for one of a switch nothing does.
-- It finds none where none of the stacks has such an entry.
pub find_wasmfx_handler_stack-IsInnermost :
    (fuel : ℕ) (w : Stacks) (wanted : ℕ) (is_switch : Bool) (ls : List Level)
    → LeadsUp w.stacks (w.stacks w.active_stack).parent ls
    → length ls ≤ fuel
    → Returns
        (IsInnermost wanted is_switch ls w)
        (find_wasmfx_handler_stack fuel w wanted is_switch)
find_wasmfx_handler_stack-IsInnermost fuel w wanted is_switch ls up le =
    subst (Returns (IsInnermost wanted is_switch ls w))
      (sym (find_wasmfx_handler_stack-innermost fuel w wanted is_switch ls up le))
      (IsFirst-IsInnermost wanted is_switch ls w (innermost wanted is_switch ls)
        (innermost-IsFirst wanted is_switch ls))
