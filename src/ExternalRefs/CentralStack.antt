-- ===== src/ExternalRefs/CentralStack.antt =====
-- The switches to the central stack and back, and the search for JavaScript frames among the stacks, of
-- patches/v8/modified-files/src/wasm/wasm-external-refs.cc. The bounds that Windows keeps are not modelled.
use webtsan.Prelude.{
  ℕ, zero, suc, ◌+◌, ◌==◌, ◌||◌, ◌≡◌, ◌≢◌, refl, ap, ap₂, ◌∙◌, Bool, true, false, Option, none,
  some, if◌then◌else◌, Outcome, ok, undefined, check_failed, arith, ◌<◌, List, [], ◌∷◌, length,
}

-- The limit is the one that `SetStackLimitForStackSwitching` sets and `real_jslimit` gives.
pub record StackState : Type 0 where
  pub limit : ℕ
  pub central_stack_limit : ℕ
  pub central_stack_sp : ℕ
  pub secondary_stack_limit : ℕ
  pub secondary_stack_sp : ℕ
  pub is_on_central_stack_flag : Bool
  pub switch_counter : ℕ

-- The state, and the stack pointer of the central stack.
unfoldable pub switch_to_the_central_stack : StackState → ℕ → StackState × ℕ
switch_to_the_central_stack s current_sp = (
  record s {
    limit = s.central_stack_limit;
    secondary_stack_limit = s.limit;
    secondary_stack_sp = current_sp;
    is_on_central_stack_flag = true;
    switch_counter = s.switch_counter + 1;
  },
  s.central_stack_sp,
)

unfoldable pub switch_from_the_central_stack : StackState → Outcome StackState
switch_from_the_central_stack s =
    if s.secondary_stack_sp == 0
    then check_failed
    else if s.secondary_stack_limit == 0
    then check_failed
    else ok (record s {
      limit = s.secondary_stack_limit;
      secondary_stack_limit = 0;
      secondary_stack_sp = 0;
      is_on_central_stack_flag = false;
    })

-- With a stack pointer and a limit that are not null, the switch back passes both checks and restores the limit,
-- and leaves the secondary stack; the central stack and its limit are as before, and the switch is counted.
pub switch_from-switch_to :
    (s : StackState) (current_sp : ℕ)
    → current_sp ≢ 0
    → s.limit ≢ 0
    → switch_from_the_central_stack (switch_to_the_central_stack s current_sp).0
      ≡ ok (record s {
        secondary_stack_limit = 0;
        secondary_stack_sp = 0;
        is_on_central_stack_flag = false;
        switch_counter = s.switch_counter + 1;
      })
unfolding switch_from_the_central_stack switch_to_the_central_stack
switch_from-switch_to s current_sp sp limit =
    let sp_set : (current_sp == 0) ≡ false = ground arith in
    let limit_set : (s.limit == 0) ≡ false = ground arith in
    ap₂
      (λ b c.
        if b
        then check_failed
        else if c
        then check_failed
        else ok (record s {
          secondary_stack_limit = 0;
          secondary_stack_sp = 0;
          is_on_central_stack_flag = false;
          switch_counter = s.switch_counter + 1;
        }))
      sp_set limit_set

-- A stack and its jump buffer: the parent, none while it is null, and whether it is on the central stack.
pub record StackMemory : Type 0 where
  pub parent : Option ℕ
  pub is_on_central_stack : Bool

-- The walk from a stack to the one where it ends.
unfoldable pub frames_loop : ℕ → (ℕ → StackMemory) → ℕ → Option ℕ → Outcome Bool
frames_loop fuel stacks to_stack none = undefined
frames_loop zero stacks to_stack (some s) = undefined
frames_loop (suc fuel) stacks to_stack (some s) =
    let rest = frames_loop fuel stacks to_stack (stacks s).parent in
    if s == to_stack then ok false else if (stacks s).is_on_central_stack then ok true else rest

-- The stack of the parent of the active suspender, none for the sentinel, which has no parent.
unfoldable pub suspender_has_js_frames : ℕ → (ℕ → StackMemory) → ℕ → Option ℕ → Outcome Bool
unfolding frames_loop
suspender_has_js_frames fuel stacks active_stack none = ok true
suspender_has_js_frames fuel stacks active_stack (some to_stack) =
    frames_loop fuel stacks to_stack (some active_stack)

-- The parents lead from `s` through the stacks `xs`, none of which is `to_stack`, to `to_stack`.
abbrev pub Leads : (ℕ → StackMemory) → ℕ → Option ℕ → List ℕ → Type 0
Leads stacks to_stack s [] = s ≡ some to_stack
Leads stacks to_stack s (x ∷ xs) =
    (s ≡ some x) × (x ≢ to_stack) × Leads stacks to_stack (stacks x).parent xs

abbrev pub any_central : (ℕ → StackMemory) → List ℕ → Bool
any_central stacks [] = false
any_central stacks (x ∷ xs) = (stacks x).is_on_central_stack || any_central stacks xs

frames_loop-any_central :
    (fuel : ℕ) (stacks : ℕ → StackMemory) (to_stack : ℕ) (s : Option ℕ) (xs : List ℕ)
    → Leads stacks to_stack s xs
    → length xs < fuel
    → frames_loop fuel stacks to_stack s ≡ ok (any_central stacks xs)
unfolding frames_loop
frames_loop-any_central zero stacks to_stack s xs leads enough = absurd (omega arith)
frames_loop-any_central (suc fuel) stacks to_stack s [] leads enough =
    let here : (to_stack == to_stack) ≡ true = ground arith in
    ap (frames_loop (suc fuel) stacks to_stack) leads
    ∙ ap
        (λ b.
          if b
          then ok false
          else if (stacks to_stack).is_on_central_stack
          then ok true
          else frames_loop fuel stacks to_stack (stacks to_stack).parent)
        here
frames_loop-any_central (suc fuel) stacks to_stack s (x ∷ xs) (e, other, leads) enough =
    let ih =
      frames_loop-any_central fuel stacks to_stack (stacks x).parent xs leads (omega arith) in
    let away : (x == to_stack) ≡ false = ground arith in
    ap (frames_loop (suc fuel) stacks to_stack) e
    ∙ ap₂ (λ b r. if b then ok false else if (stacks x).is_on_central_stack then ok true else r)
        away ih
    ∙ or_outcome (stacks x).is_on_central_stack (any_central stacks xs)
  where
    or_outcome : (b c : Bool) → ◌≡◌ {A = Outcome Bool} (if b then ok true else ok c) (ok (b || c))
    or_outcome true c = refl
    or_outcome false c = refl

-- Where the parents lead from the active stack to that of the parent of the suspender, with fuel for them: the
-- answer is whether one of the stacks on the way is on the central stack.
pub suspender_has_js_frames-any_central :
    (fuel : ℕ) (stacks : ℕ → StackMemory) (active_stack to_stack : ℕ) (xs : List ℕ)
    → Leads stacks to_stack (some active_stack) xs
    → length xs < fuel
    → suspender_has_js_frames fuel stacks active_stack (some to_stack) ≡ ok (any_central stacks xs)
unfolding suspender_has_js_frames
suspender_has_js_frames-any_central fuel stacks active_stack to_stack xs leads enough =
    frames_loop-any_central fuel stacks to_stack (some active_stack) xs leads enough
