-- ===== src/ExternalRefs/StackSwitching.antt =====
-- The switches between stacks of patches/v8/modified-files/src/wasm/wasm-external-refs.cc. What V8 does
-- when it makes another stack the active one, and when it retires a stack, are parameters.
pub mod Handlers
pub mod Innermost
pub mod Switches
use webtsan.Prelude.{
  ℕ, zero, suc, ◌+◌, ◌==◌, ◌&&◌, not, Bool, true, false, Option, none, some, update, if◌then◌else◌,
  Outcome, ok, undefined, check_failed, ◌>>=◌, List, [], ◌∷◌,
}

-- An entry of the handler table of a function, as it is decoded.
pub data EffectHandler : Type 0 where
  tag_handler : (call_offset tag_index handler_offset : ℕ) → EffectHandler
  switch_handler : (call_offset tag_index : ℕ) → EffectHandler

-- The code of the caller of the top frame: its start, its handlers and the tags of its instance.
pub record WasmCode : Type 0 where
  pub instruction_start : ℕ
  pub effect_handlers : List EffectHandler
  pub tags_table : ℕ → ℕ

-- The frame at the top of a stack that is not active. Of an exit frame, the registers of its caller, and
-- the code of it, where that is a frame of WebAssembly.
pub data TopFrame : Type 0 where
  stack_exit : (pc sp fp : ℕ) → Option WasmCode → TopFrame
  jspi_frame : TopFrame
  other_frame : TopFrame

pub data JumpState : Type 0 where
  k_inactive : JumpState
  k_suspended : JumpState
  k_retired : JumpState

-- A stack: what its jump buffer has, its top frame, and what a continuation needs. Types of parameters
-- are those of a signature, by its index: what it takes, or what it returns.
pub data ParamTypes : Type 0 where
  parameters_of : ℕ → ParamTypes
  returns_of : ℕ → ParamTypes

pub record Stack : Type 0 where
  pub parent : Option ℕ
  pub is_on_central_stack : Bool
  pub sp : ℕ
  pub fp : ℕ
  pub pc : ℕ
  pub top : TopFrame
  pub current_continuation : Option ℕ
  pub has_bound_args : Bool
  pub arg_buffer : ℕ
  pub param_types : ParamTypes

-- A suspender with its parent and its stack; null is none.
pub record Suspender : Type 0 where
  pub suspender_parent : Option ℕ
  pub suspender_stack : Option ℕ

pub record Stacks : Type 0 where
  pub active_stack : ℕ
  pub active_suspender : ℕ
  pub stacks : ℕ → Stack
  pub suspenders : ℕ → Suspender
  pub stack_objects : ℕ → Option ℕ

abbrev pub set_stack : Stacks → ℕ → Stack → Stacks
set_stack w s k = record w { stacks = update w.stacks s k }

abbrev pub set_suspender : Stacks → ℕ → Suspender → Stacks
set_suspender w s k = record w { suspenders = update w.suspenders s k }

-- The search in a handler table: none without a match; for a handler of a tag the address to go on at.
-- A match has the tag, and the call is the one at `pc`.
abbrev pub handles : (code : WasmCode) (pc wanted_tag call_offset tag_index : ℕ) → Bool
handles code pc wanted_tag call_offset tag_index =
    (code.instruction_start + call_offset == pc) && (code.tags_table tag_index == wanted_tag)

unfoldable pub find_handler :
    WasmCode → (pc wanted_tag : ℕ) (is_switch : Bool) → List EffectHandler → Option (Option ℕ)
find_handler code pc wanted is_switch [] = none
find_handler code pc wanted is_switch (tag_handler c t h ∷ hs) =
    let rest = find_handler code pc wanted is_switch hs in
    if handles code pc wanted c t && not is_switch
    then some (some (code.instruction_start + h))
    else rest
find_handler code pc wanted is_switch (switch_handler c t ∷ hs) =
    let rest = find_handler code pc wanted is_switch hs in
    if is_switch && handles code pc wanted c t then some none else rest

-- A stack, and where to go on, if that is told.
abbrev pub Target : Type 0
Target = ℕ × Option (ℕ × ℕ × ℕ)

abbrev pub target : (s sp fp : ℕ) → Option ℕ → Target
target s sp fp none = (s, none)
target s sp fp (some pc) = (s, some (pc, sp, fp))

-- One stack, with the rest of the search. Beyond the central stack it would skip frames of JavaScript.
unfoldable pub search_code :
    (wanted_tag : ℕ) (is_switch : Bool) (s : ℕ) (is_on_central_stack : Bool)
    → Outcome (Option Target)
    → (pc sp fp : ℕ) → WasmCode
    → Outcome (Option Target)
unfolding find_handler
search_code wanted is_switch s central rest pc sp fp code =
    elim (find_handler code pc wanted is_switch code.effect_handlers) [
      | some h ↦ ok (some (target s sp fp h))
      | none ↦ if central then ok none else rest
    ]

unfoldable pub search_frame :
    (wanted_tag : ℕ) (is_switch : Bool) (s : ℕ) (is_on_central_stack : Bool)
    → Outcome (Option Target)
    → TopFrame
    → Outcome (Option Target)
unfolding search_code
search_frame wanted is_switch s central rest jspi_frame = ok none
search_frame wanted is_switch s central rest other_frame = check_failed
search_frame wanted is_switch s central rest (stack_exit pc sp fp none) = check_failed
search_frame wanted is_switch s central rest (stack_exit pc sp fp (some code)) =
    search_code wanted is_switch s central rest pc sp fp code

unfoldable pub find_loop :
    ℕ → (ℕ → Stack) → (wanted_tag : ℕ) (is_switch : Bool) → Option ℕ → Outcome (Option Target)
unfolding search_frame
find_loop fuel stacks wanted is_switch none = undefined
find_loop zero stacks wanted is_switch (some s) = undefined
find_loop (suc fuel) stacks wanted is_switch (some s) =
    search_frame wanted is_switch s (stacks s).is_on_central_stack
      (find_loop fuel stacks wanted is_switch (stacks s).parent) (stacks s).top

-- The jump buffer of the stack gets the registers of the handler.
abbrev pub jump_to : Stacks → ℕ → Option (ℕ × ℕ × ℕ) → Stacks
jump_to w s none = w
jump_to w s (some (pc, sp, fp)) = set_stack w s (record (w.stacks s) { pc = pc; sp = sp; fp = fp })

abbrev pub take_target : Stacks → Option Target → Option (ℕ × Stacks)
take_target w none = none
take_target w (some (s, jump)) = some (s, jump_to w s jump)

unfoldable pub find_wasmfx_handler_stack :
    ℕ → Stacks → (wanted_tag : ℕ) (is_switch : Bool) → Outcome (Option (ℕ × Stacks))
unfolding find_loop
find_wasmfx_handler_stack fuel w wanted is_switch =
    find_loop fuel w.stacks wanted is_switch (w.stacks w.active_stack).parent >>= λ o.
    ok (take_target w o)
