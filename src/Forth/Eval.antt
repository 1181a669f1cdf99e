-- ===== src/Forth/Eval.antt =====
-- kernel/forth/forth.c: evaluating a submitted line.
use rave_os.Prelude.{
  ℕ, Bool, true, false, Option, none, some, List, [], ◌∷◌, ◌++◌, ◌==◌, ◌||◌, ltb, if◌then◌else◌,
  length, get_elem?, codes, ◌-◌,
}
use rave_os.Forth.Numbers.{parse_int, str_eq_ci}
use rave_os.Forth.Vm.{Vm, Word, has_error, set_error, forth_push, forth_write}
use rave_os.Forth.Words.{Primitive, primitives}
use rave_os.Forth.Exec.{Outcome, done, crashed, out_of_fuel, forth_exec}
use rave_os.Forth.Compile.{find_name, primitive_names, word_names, handle_compile_token}

-- FORTH_TOKEN_MAX
abbrev pub token_max : ℕ
token_max = 32

abbrev pub is_blank : ℕ → Bool
is_blank c = c == b' ' || c == 9

abbrev pub flush : List ℕ → List (List ℕ) → List (List ℕ)
flush [] ts = ts
flush (c ∷ cs) ts = (c ∷ cs) ∷ ts

-- A character that no longer fits the token's buffer is consumed and dropped.
abbrev pub grow_token : List ℕ → ℕ → List ℕ
grow_token cur c = if ltb (length cur) (token_max - 1) then cur ++ (c ∷ []) else cur

-- The tokens that the loop of `forth_eval_line` takes from the rest of a line, `cur` being the one
-- that is under way. What a token does cannot change the later ones.
unfoldable pub tokens_from : List ℕ → List ℕ → List (List ℕ)
tokens_from cur [] = flush cur []
tokens_from cur (c ∷ cs) =
    let rest = tokens_from [] cs in
    let more = tokens_from (grow_token cur c) cs in if is_blank c then flush cur rest else more

abbrev pub start_definition : Vm → Vm
start_definition vm = record vm {
  compiling = true;
  awaiting_name = true;
  compile_start = length vm.code;
}

abbrev pub execute_word : ℕ → Option Word → Vm → Outcome
execute_word fuel none vm = crashed
execute_word fuel (some w) vm = forth_exec fuel w.code_start vm

abbrev pub execute_named : ℕ → Option ℕ → Vm → Outcome
execute_named fuel none vm = done (set_error vm (codes "UNKNOWN"))
execute_named fuel (some i) vm = execute_word fuel (get_elem? vm.dict i) vm

abbrev pub call_directly : Option Primitive → Vm → Outcome
call_directly none vm = crashed
call_directly (some p) vm = done (p.fn vm)

abbrev pub execute_primitive : ℕ → Option ℕ → List ℕ → Vm → Outcome
execute_primitive fuel none token vm = execute_named fuel (find_name 0 (word_names vm) token) vm
execute_primitive fuel (some i) token vm = call_directly (get_elem? primitives i) vm

abbrev pub execute_number : ℕ → Option ℕ → List ℕ → Vm → Outcome
execute_number fuel none token vm =
    execute_primitive fuel (find_name 0 primitive_names token) token vm
execute_number fuel (some n) token vm = done (forth_push vm n)

unfoldable pub handle_immediate_token : ℕ → Vm → List ℕ → Outcome
handle_immediate_token fuel vm token =
    if str_eq_ci token (codes ":")
    then done (start_definition vm)
    else execute_number fuel (parse_int token) token vm

unfoldable pub handle_token : ℕ → Vm → List ℕ → Outcome
handle_token fuel vm token =
    if vm.compiling
    then done (handle_compile_token vm token)
    else handle_immediate_token fuel vm token

unfoldable pub eval_tokens : ℕ → List (List ℕ) → Vm → Outcome
eval_tokens fuel [] vm = done vm
eval_tokens fuel (t ∷ ts) vm = elim (has_error vm) [
  | true ↦ done vm
  | false ↦ elim (handle_token fuel vm t) [
    | done vm' ↦ eval_tokens fuel ts vm'
    | crashed ↦ crashed
    | out_of_fuel ↦ out_of_fuel
  ]
]

-- ABORT.
unfoldable pub abort : Vm → Vm
abort vm =
    let cleared : Vm = record vm {
      dstack = [];
      rstack = [];
      compiling = false;
      awaiting_name = false;
      ctrl_stack = [];
    } in
    forth_write (forth_write cleared (10 ∷ [])) vm.error

abbrev pub finish : Outcome → Outcome
finish (done vm) = done (if has_error vm then abort vm else vm)
finish crashed = crashed
finish out_of_fuel = out_of_fuel

-- `fuel` bounds the instructions of one compiled word's run: BEGIN ... UNTIL may loop for ever.
unfoldable pub eval_line : ℕ → Vm → List ℕ → ℕ → Outcome
eval_line fuel vm line out_max =
    finish (
      eval_tokens fuel (tokens_from [] line)
        (record vm { error = []; out = []; out_max = out_max }))
