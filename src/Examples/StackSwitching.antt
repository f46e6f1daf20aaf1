-- ===== src/Examples/StackSwitching.antt =====
-- An instance of the theorem on the search for a handler: stack 3 is active, its parent is stack 2, and
-- that of stack 2 is stack 1, which is on the central stack.
use webtsan.Prelude.{
  Returns, ◌+◌, ◌-◌, ℕ, ◌==◌, ◌≡◌, refl, false, List, [], ◌∷◌, none, some, arith, if◌then◌else◌,
}
use webtsan.ExternalRefs.StackSwitching.{
  WasmCode, EffectHandler, tag_handler, switch_handler, stack_exit, Stack, Stacks, parameters_of,
  find_wasmfx_handler_stack, find_handler,
}
use webtsan.ExternalRefs.StackSwitching.Handlers.{Level, innermost}
use webtsan.ExternalRefs.StackSwitching.Innermost.{
  IsInnermost, find_wasmfx_handler_stack-IsInnermost,
}

-- The tags of the instance are 70 and on.
abbrev code_with : List EffectHandler → WasmCode
code_with handlers = record {
  instruction_start = 1000;
  effect_handlers = handlers;
  tags_table = λ i. 70 + i;
}

-- Stack 2 has a handler for tag 71, stack 1 one for tag 72 at the same call.
abbrev inner_code : WasmCode
inner_code = code_with (tag_handler 8 1 40 ∷ switch_handler 8 2 ∷ [])

abbrev outer_code : WasmCode
outer_code = code_with (tag_handler 4 2 60 ∷ tag_handler 8 2 80 ∷ [])

abbrev code_of : ℕ → WasmCode
code_of s = if s == 2 then inner_code else outer_code

abbrev stack : ℕ → Stack
stack s = record {
  parent = some (s - 1);
  is_on_central_stack = s == 1;
  sp = 0;
  fp = 0;
  pc = 0;
  top = stack_exit 1008 (500 + s) (600 + s) (some (code_of s));
  current_continuation = none;
  has_bound_args = false;
  arg_buffer = 0;
  param_types = parameters_of 0;
}

abbrev world : Stacks
world = record {
  active_stack = 3;
  active_suspender = 0;
  stacks = stack;
  suspenders = λ _. record { suspender_parent = none; suspender_stack = none };
  stack_objects = λ _. none;
}

abbrev level : ℕ → Level
level s = record { number = s; pc = 1008; sp = 500 + s; fp = 600 + s; code = code_of s }

-- Tag 72 is handled by stack 1 only, at its second handler.
innermost_stack : innermost 72 false (level 2 ∷ level 1 ∷ []) ≡ some (1, some (1080, 501, 601))
unfolding innermost find_handler
innermost_stack = refl

find_wasmfx_handler_stack-IsInnermost_example :
    Returns
      (IsInnermost 72 false (level 2 ∷ level 1 ∷ []) world)
      (find_wasmfx_handler_stack 2 world 72 false)
find_wasmfx_handler_stack-IsInnermost_example =
    find_wasmfx_handler_stack-IsInnermost 2 world 72 false (level 2 ∷ level 1 ∷ [])
      (refl, (refl, refl), (refl, (refl, refl))) (omega arith)
