-- ===== src/ExternalRefs/StackSwitching/Switches.antt =====
-- The switches between stacks of patches/v8/modified-files/src/wasm/wasm-external-refs.cc.
use webtsan.Prelude.{ℕ, true, false, Option, none, some, update, Outcome, ok, ◌>>=◌}
use webtsan.ExternalRefs.StackSwitching.{
  Stacks, Suspender, JumpState, k_inactive, k_suspended, k_retired, ParamTypes, parameters_of,
  returns_of, set_stack, set_suspender, find_wasmfx_handler_stack,
}

-- What V8 does with the two stacks, whose states are to be set and checked, and with one that retires.
module _
    (switch_stacks : Stacks → (from_state to_state : JumpState) (from to sp fp pc : ℕ) → Stacks)
    (retire_wasm_stack : Stacks → ℕ → Stacks) where
  -- `ResumeStack`, `SuspendStack` and `ReturnStack`.
  abbrev pub resume_to : Stacks → (from to sp fp pc : ℕ) → Stacks
  resume_to w from to sp fp pc = switch_stacks w k_inactive k_suspended from to sp fp pc

  abbrev pub suspend_to : Stacks → (from to sp fp pc : ℕ) → Stacks
  suspend_to w from to sp fp pc = switch_stacks w k_suspended k_inactive from to sp fp pc

  abbrev pub return_to : Stacks → (from to : ℕ) → Stacks
  return_to w from to = switch_stacks w k_retired k_inactive from to 0 0 0

  unfoldable pub start_stack : Stacks → (to sp fp pc : ℕ) → Stacks
  start_stack w to sp fp pc = resume_to w w.active_stack to sp fp pc

  unfoldable pub suspend_stack : Stacks → (to sp fp pc : ℕ) → Stacks
  suspend_stack w to sp fp pc =
      let suspender : Suspender = record {
        suspender_parent = none;
        suspender_stack = some w.active_stack;
      } in
      suspend_to (set_suspender w w.active_suspender suspender) w.active_stack to sp fp pc

  unfoldable pub resume_jspi_stack : Stacks → (to sp fp pc suspender : ℕ) → Stacks
  resume_jspi_stack w to sp fp pc suspender =
      let resumed = record (w.suspenders suspender) {
        suspender_parent = some w.active_suspender;
      } in
      let w1 = record (set_suspender w suspender resumed) { active_suspender = suspender } in
      resume_to w1 w.active_stack to sp fp pc

  -- A stack that goes on has no continuation and no bound arguments.
  abbrev pub set_going : Stacks → ℕ → Stacks
  set_going w s =
      set_stack w s (record (w.stacks s) { current_continuation = none; has_bound_args = false })

  unfoldable pub resume_wasmfx_stack : Stacks → (to sp fp pc : ℕ) → Stacks
  resume_wasmfx_stack w to sp fp pc = resume_to (set_going w to) w.active_stack to sp fp pc

  abbrev pub set_continuation : Stacks → (s cont arg_buffer : ℕ) → ParamTypes → Stacks
  set_continuation w s cont arg_buffer types = set_stack w s (record (w.stacks s) {
    current_continuation = some cont;
    arg_buffer = arg_buffer;
    param_types = types;
  })

  abbrev pub set_stack_object : Stacks → (cont s : ℕ) → Stacks
  set_stack_object w cont s = record w { stack_objects = update w.stack_objects cont (some s) }

  abbrev pub suspend_at :
      (from sp fp pc cont arg_buffer sig_index : ℕ)
      → Stacks
      → Option (ℕ × Stacks)
      → Option ℕ × Stacks
  suspend_at from sp fp pc cont arg_buffer sig_index w none = (none, w)
  suspend_at from sp fp pc cont arg_buffer sig_index w (some (to, w1)) = (
    some to,
    suspend_to (set_continuation w1 from cont arg_buffer (returns_of sig_index)) from to sp fp pc,
  )

  -- The stack that it goes on with, none without a handler.
  unfoldable pub suspend_wasmfx_stack :
      (fuel : ℕ)
      → Stacks
      → (sp fp pc wanted_tag cont arg_buffer sig_index : ℕ) → Outcome (Option ℕ × Stacks)
  unfolding find_wasmfx_handler_stack
  suspend_wasmfx_stack fuel w sp fp pc wanted_tag cont arg_buffer sig_index =
      let w1 = set_stack_object w cont w.active_stack in
      find_wasmfx_handler_stack fuel w1 wanted_tag false >>= λ o.
      ok (suspend_at w.active_stack sp fp pc cont arg_buffer sig_index w1 o)

  abbrev pub resume_at : Stacks → (parent target_stack : ℕ) → Stacks
  resume_at w parent target_stack =
      resume_to w parent target_stack (w.stacks parent).sp (w.stacks parent).fp (w.stacks parent).pc

  abbrev pub switch_at :
      (from sp fp pc cont target_stack arg_buffer sig_index : ℕ)
      → Stacks
      → Option (ℕ × Stacks)
      → Option ℕ × Stacks
  switch_at from sp fp pc cont target_stack arg_buffer sig_index w none = (none, w)
  switch_at from sp fp pc cont target_stack arg_buffer sig_index w (some (parent, w1)) =
      let w2 =
        set_continuation (set_going w1 target_stack) from cont arg_buffer
          (parameters_of sig_index) in
      (some target_stack, resume_at (suspend_to w2 from parent sp fp pc) parent target_stack)

  unfoldable pub switch_wasmfx_stack :
      (fuel : ℕ)
      → Stacks
      → (sp fp pc wanted_tag cont target_stack arg_buffer sig_index : ℕ)
      → Outcome (Option ℕ × Stacks)
  unfolding find_wasmfx_handler_stack
  switch_wasmfx_stack fuel w sp fp pc wanted_tag cont target_stack arg_buffer sig_index =
      let w1 = set_stack_object w cont w.active_stack in
      find_wasmfx_handler_stack fuel w1 wanted_tag true >>= λ o.
      ok (switch_at w.active_stack sp fp pc cont target_stack arg_buffer sig_index w1 o)

  unfoldable pub return_stack : Stacks → ℕ → Stacks
  return_stack w to = retire_wasm_stack (return_to w w.active_stack to) w.active_stack

  -- The active suspender has no stack any more.
  unfoldable pub return_jspi_stack : Stacks → ℕ → Stacks
  unfolding return_stack
  return_jspi_stack w to =
      return_stack
        (set_suspender w w.active_suspender
          (record (w.suspenders w.active_suspender) { suspender_stack = none }))
        to

  unfoldable pub return_wasmfx_stack : Stacks → ℕ → Stacks
  unfolding return_stack
  return_wasmfx_stack w to = return_stack w to

  unfoldable pub retire_stack : Stacks → ℕ → Stacks
  retire_stack w s = retire_wasm_stack w s
