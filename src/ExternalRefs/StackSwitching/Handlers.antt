-- ===== src/ExternalRefs/StackSwitching/Handlers.antt =====
-- Which handler the search of `find_wasmfx_handler_stack` finds.
use webtsan.Prelude.{
  ℕ, zero, suc, ◌≡◌, ◌≤◌, refl, ap, ap₂, ◌>>=◌, ◌∙◌, Bool, true, false, Option, none, some, Outcome,
  ok, List, [], ◌∷◌, length, arith, if◌then◌else◌,
}
use webtsan.ExternalRefs.StackSwitching.{
  Stack, stack_exit, WasmCode, find_handler, Target, target, search_code, search_frame, find_loop,
  Stacks, find_wasmfx_handler_stack, take_target,
}

-- What is at the top of each stack on the way: an exit frame that WebAssembly called.
pub record Level : Type 0 where
  pub number : ℕ
  pub pc : ℕ
  pub sp : ℕ
  pub fp : ℕ
  pub code : WasmCode

abbrev pub IsLevel : (ℕ → Stack) → Bool → Level → Type 0
IsLevel stacks central l =
    ((stacks l.number).top ≡ stack_exit l.pc l.sp l.fp (some l.code))
    × ((stacks l.number).is_on_central_stack ≡ central)

-- From `s` the parents lead through these stacks, of which the last is on the central stack.
abbrev pub LeadsUp : (ℕ → Stack) → Option ℕ → List Level → Type 0
LeadsUp stacks s [] = ⊥
LeadsUp stacks s (l ∷ []) = (s ≡ some l.number) × IsLevel stacks true l
LeadsUp stacks s (l ∷ k ∷ ks) =
    (s ≡ some l.number) × IsLevel stacks false l × LeadsUp stacks (stacks l.number).parent (k ∷ ks)

-- The first of the stacks with a handler.
unfoldable pub innermost : (wanted_tag : ℕ) (is_switch : Bool) → List Level → Option Target
innermost wanted is_switch [] = none
innermost wanted is_switch (l ∷ ls) =
    let rest = innermost wanted is_switch ls in
    elim (find_handler l.code l.pc wanted is_switch l.code.effect_handlers) [
      | some h ↦ some (target l.number l.sp l.fp h)
      | none ↦ rest
    ]

found_or :
    (wanted : ℕ) (is_switch : Bool) (l : Level) → Outcome (Option Target) → Outcome (Option Target)
found_or wanted is_switch l rest =
    elim (find_handler l.code l.pc wanted is_switch l.code.effect_handlers) [
      | some h ↦ ok (some (target l.number l.sp l.fp h))
      | none ↦ rest
    ]

find_loop-level :
    (fuel : ℕ) (stacks : ℕ → Stack) (wanted : ℕ) (is_switch central : Bool) (l : Level)
    (s : Option ℕ)
    → s ≡ some l.number
    → IsLevel stacks central l
    → find_loop (suc fuel) stacks wanted is_switch s
      ≡ found_or wanted is_switch l (
          if central
          then ok none
          else find_loop fuel stacks wanted is_switch (stacks l.number).parent)
unfolding find_loop search_frame search_code found_or
find_loop-level fuel stacks wanted is_switch central l s same (top, at) =
    ap (find_loop (suc fuel) stacks wanted is_switch) same
    ∙ ap₂
        (λ c t.
          search_frame wanted is_switch l.number c
            (find_loop fuel stacks wanted is_switch (stacks l.number).parent) t)
        at top

at_handler :
    (o : Option (Option ℕ)) (l : Level) (rest : Option Target)
    → (elim o [ some h ↦ ok (some (target l.number l.sp l.fp h)) | none ↦ ok rest ])
      ≡ ok (elim o [ some h ↦ some (target l.number l.sp l.fp h) | none ↦ rest ])
at_handler none l rest = refl
at_handler (some h) l rest = refl

found_or-innermost :
    (wanted : ℕ) (is_switch : Bool) (l : Level) (ls : List Level)
    → found_or wanted is_switch l (ok (innermost wanted is_switch ls))
      ≡ ok (innermost wanted is_switch (l ∷ ls))
unfolding found_or innermost
found_or-innermost wanted is_switch l ls =
    at_handler (find_handler l.code l.pc wanted is_switch l.code.effect_handlers) l
      (innermost wanted is_switch ls)

find_loop-innermost :
    (fuel : ℕ) (stacks : ℕ → Stack) (wanted : ℕ) (is_switch : Bool) (s : Option ℕ) (ls : List Level)
    → LeadsUp stacks s ls
    → length ls ≤ fuel
    → find_loop fuel stacks wanted is_switch s ≡ ok (innermost wanted is_switch ls)
unfolding innermost
find_loop-innermost fuel stacks wanted is_switch s [] up le = absurd up
find_loop-innermost zero stacks wanted is_switch s (l ∷ ls) up le = absurd (omega arith)
find_loop-innermost (suc fuel) stacks wanted is_switch s (l ∷ []) (same, level) le =
    find_loop-level fuel stacks wanted is_switch true l s same level
    ∙ found_or-innermost wanted is_switch l []
find_loop-innermost (suc fuel) stacks wanted is_switch s (l ∷ k ∷ ks) (same, level, up) le =
    find_loop-level fuel stacks wanted is_switch false l s same level
    ∙ ap (found_or wanted is_switch l) (
        find_loop-innermost fuel stacks wanted is_switch (stacks l.number).parent (k ∷ ks) up
          (omega (arith, le)))
    ∙ found_or-innermost wanted is_switch l (k ∷ ks)

-- The search goes through the stacks on the way.
pub find_wasmfx_handler_stack-innermost :
    (fuel : ℕ) (w : Stacks) (wanted : ℕ) (is_switch : Bool) (ls : List Level)
    → LeadsUp w.stacks (w.stacks w.active_stack).parent ls
    → length ls ≤ fuel
    → find_wasmfx_handler_stack fuel w wanted is_switch
      ≡ ok (take_target w (innermost wanted is_switch ls))
unfolding find_wasmfx_handler_stack
find_wasmfx_handler_stack-innermost fuel w wanted is_switch ls up le =
    ap (λ (o : Outcome (Option Target)). o >>= λ t. ok (take_target w t))
      (find_loop-innermost fuel w.stacks wanted is_switch (w.stacks w.active_stack).parent ls up le)
