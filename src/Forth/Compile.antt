-- ===== src/Forth/Compile.antt =====
-- kernel/forth/forth.c: compiling the tokens of a definition.
use rave_os.Prelude.{
  ℕ, ◌+◌, ◌-◌, ◌^◌, Bool, true, false, Option, none, some, List, [], ◌∷◌, ◌++◌, ◌==◌, leb,
  if◌then◌else◌, length, take, get_elem?, set, map, codes,
}
use rave_os.Forth.Numbers.{parse_int, str_eq_ci}
use rave_os.Forth.Vm.{
  Vm, Instr, Op, literal, call_primitive, call_word, exit, branch, branch_if_zero, call_yield, Kind,
  kind_if, kind_begin, Ctrl, Word, code_size, ctrl_stack_size, max_words, word_name_max, has_error,
  set_error,
}
use rave_os.Forth.Words.{Primitive, primitives}

abbrev pub instr : Op → ℕ → Instr
instr op arg = record { op = op; arg = arg }

unfoldable pub forth_emit : Vm → Op → ℕ → Vm
forth_emit vm op arg =
    if leb code_size (length vm.code)
    then set_error vm (codes "CODE FULL")
    else record vm { code = vm.code ++ (instr op arg ∷ []) }

abbrev pub ctrl : Kind → ℕ → Ctrl
ctrl kind value = record { kind = kind; value = value }

unfoldable pub ctrl_push : Vm → Kind → ℕ → Vm
ctrl_push vm kind value =
    if leb ctrl_stack_size (length vm.ctrl_stack)
    then set_error vm (codes "CTRL STACK FULL")
    else record vm { ctrl_stack = ctrl kind value ∷ vm.ctrl_stack }

abbrev pub same_kind : Kind → Kind → Bool
same_kind kind_if kind_if = true
same_kind kind_begin kind_begin = true
same_kind _ _ = false

abbrev pub pop_entry : Vm → List Ctrl → Kind → List ℕ → (ℕ → Vm → Vm) → Vm
pop_entry vm [] expected msg k = set_error vm msg
pop_entry vm (e ∷ rest) expected msg k =
    if same_kind e.kind expected
    then k e.value (record vm { ctrl_stack = rest })
    else set_error vm msg

-- `ctrl_pop`, followed by `k` on the entry's value if it is of the expected kind.
unfoldable pub ctrl_pop : Vm → Kind → List ℕ → (ℕ → Vm → Vm) → Vm
ctrl_pop vm expected msg k = pop_entry vm vm.ctrl_stack expected msg k

-- `code[at].arg = arg`
abbrev pub patched : Option Instr → List Instr → ℕ → ℕ → List Instr
patched none code at arg = code
patched (some i) code at arg = set code at (record i { arg = arg })

-- Whether the instruction lies outside the code.
abbrev pub misses : Option Instr → Bool → Bool
misses none fault = true
misses (some i) fault = fault

unfoldable pub patch : Vm → ℕ → ℕ → Vm
patch vm at arg =
    let old = get_elem? vm.code at in
    record vm { code = patched old vm.code at arg; fault = misses old vm.fault }

-- The argument -1 of a branch that is still to be patched.
abbrev pub unpatched : ℕ
unpatched = 2 ^ 32 - 1

-- A branch whose target is left open, and its entry on the control stack.
unfoldable pub open_branch : Vm → Op → Vm
open_branch vm op =
    let vm' = forth_emit vm op unpatched in
    if has_error vm' then vm' else ctrl_push vm' kind_if (length vm.code)

unfoldable pub compile_if : Vm → Vm
compile_if vm = open_branch vm branch_if_zero

unfoldable pub compile_else : Vm → Vm
compile_else vm =
    ctrl_pop vm kind_if (codes "MISMATCHED ELSE")
      (λ at vm. open_branch (patch vm at (length vm.code + 1)) branch)

unfoldable pub compile_then : Vm → Vm
compile_then vm =
    ctrl_pop vm kind_if (codes "MISMATCHED THEN") (λ at vm. patch vm at (length vm.code))

unfoldable pub compile_begin : Vm → Vm
compile_begin vm = ctrl_push vm kind_begin (length vm.code)

unfoldable pub compile_until : Vm → Vm
compile_until vm =
    ctrl_pop vm kind_begin (codes "MISMATCHED UNTIL")
      (λ at vm. forth_emit (forth_emit vm call_yield 0) branch_if_zero at)

-- The new dictionary entry.
abbrev pub compiled_word : Vm → Word
compiled_word vm = record {
  name = take word_name_max vm.compile_name;
  code_start = vm.compile_start;
}

abbrev pub register : Vm → Vm
register vm = record vm { dict = vm.dict ++ (compiled_word vm ∷ []); compiling = false }

unfoldable pub compile_semicolon : Vm → Vm
compile_semicolon vm =
    let vm' = forth_emit vm exit 0 in
    if has_error vm'
    then vm'
    else if length vm'.ctrl_stack == 0
    then if leb max_words (length vm'.dict) then set_error vm' (codes "DICT FULL") else register vm'
    else set_error vm' (codes "UNBALANCED CONTROL")

-- The loops that look a token up in a table of names, from index `i`.
unfoldable pub find_name : ℕ → List (List ℕ) → List ℕ → Option ℕ
find_name i [] token = none
find_name i (n ∷ ns) token =
    let rest = find_name (i + 1) ns token in if str_eq_ci token n then some i else rest

unfoldable pub primitive_names : List (List ℕ)
primitive_names = map (λ (p : Primitive). p.name) primitives

abbrev pub word_names : Vm → List (List ℕ)
word_names vm = map (λ (w : Word). w.name) vm.dict

abbrev pub compile_call : Option ℕ → Vm → Vm
compile_call none vm = set_error vm (codes "UNKNOWN")
compile_call (some i) vm = forth_emit vm call_word i

abbrev pub compile_primitive : Option ℕ → List ℕ → Vm → Vm
compile_primitive none token vm = compile_call (find_name 0 (word_names vm) token) vm
compile_primitive (some i) token vm = forth_emit vm call_primitive i

abbrev pub compile_number : Option ℕ → List ℕ → Vm → Vm
compile_number none token vm = compile_primitive (find_name 0 primitive_names token) token vm
compile_number (some n) token vm = forth_emit vm literal n

unfoldable pub compile_plain : List ℕ → Vm → Vm
compile_plain token vm = compile_number (parse_int token) token vm

unfoldable pub handle_compile_token : Vm → List ℕ → Vm
handle_compile_token vm token =
    if vm.awaiting_name
    then record vm { compile_name = take word_name_max token; awaiting_name = false }
    else if str_eq_ci token (codes "IF")
    then compile_if vm
    else if str_eq_ci token (codes "ELSE")
    then compile_else vm
    else if str_eq_ci token (codes "THEN")
    then compile_then vm
    else if str_eq_ci token (codes "BEGIN")
    then compile_begin vm
    else if str_eq_ci token (codes "UNTIL")
    then compile_until vm
    else if str_eq_ci token (codes ";")
    then compile_semicolon vm
    else compile_plain token vm
