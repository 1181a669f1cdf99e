-- ===== src/Forth/Vm.antt =====
-- kernel/forth/forth.h and forth.c: the virtual machine's state and the operations on its stacks.
-- The arrays with a fill count are lists of that length, the stacks with the top first.
use rave_os.Prelude.{
  ltb, ℕ, ◌-◌, Bool, true, false, List, [], ◌∷◌, ◌++◌, leb, if◌then◌else◌, length, take, codes,
}

-- FORTH_DSTACK_SIZE
abbrev pub dstack_size : ℕ
dstack_size = 128

-- FORTH_ERROR_MAX
abbrev pub error_max : ℕ
error_max = 32

-- FORTH_MEM_SIZE
abbrev pub mem_size : ℕ
mem_size = 64

-- FORTH_MAX_WORDS
abbrev pub max_words : ℕ
max_words = 64

-- FORTH_CODE_SIZE
abbrev pub code_size : ℕ
code_size = 2048

-- FORTH_WORD_NAME_MAX
abbrev pub word_name_max : ℕ
word_name_max = 16

-- FORTH_RSTACK_SIZE
abbrev pub rstack_size : ℕ
rstack_size = 32

-- FORTH_CTRL_STACK_SIZE
abbrev pub ctrl_stack_size : ℕ
ctrl_stack_size = 8

-- `enum forth_op`
pub data Op : Type 0 where
  literal call_primitive call_word exit branch branch_if_zero call_yield : Op

-- `struct forth_instr`
pub record Instr : Type 0 where
  pub op : Op
  pub arg : ℕ

-- CTRL_KIND_IF, CTRL_KIND_BEGIN
pub data Kind : Type 0 where
  kind_if kind_begin : Kind

-- `struct forth_ctrl_entry`
pub record Ctrl : Type 0 where
  pub kind : Kind
  pub value : ℕ

-- `struct forth_dict_entry`
pub record Word : Type 0 where
  pub name : List ℕ
  pub code_start : ℕ

-- The calls of kernel/forth/forth_hooks.h, with their arguments.
pub data Hook : Type 0 where
  beep yields gate_on gate_off ring_off arp_off : Hook
  voice wave duty ona filter_cutoff filter_res filter_mode filter_route : (n : ℕ) → Hook
  ring_partner arp_on arp_rate : (n : ℕ) → Hook
  adsr : (a d s r : ℕ) → Hook
  arp_note : (note slot : ℕ) → Hook

-- `struct forth_vm`. An empty `error` is no error; `out` holds the `out_pos` characters written;
-- `hooks` are the calls made to the kernel, the last one first; `fault` is whether a read or a write has
-- gone outside an array, which the C program does not notice.
pub record Vm : Type 0 where
  pub dstack : List ℕ
  pub error : List ℕ
  pub mem : List ℕ
  pub code : List Instr
  pub dict : List Word
  pub rstack : List ℕ
  pub compiling : Bool
  pub awaiting_name : Bool
  pub compile_name : List ℕ
  pub compile_start : ℕ
  pub ctrl_stack : List Ctrl
  pub out : List ℕ
  pub out_max : ℕ
  pub hooks : List Hook
  pub fault : Bool

abbrev pub is_empty : List ℕ → Bool
is_empty [] = true
is_empty (c ∷ cs) = false

-- `vm->error[0]`
abbrev pub has_error : Vm → Bool
has_error vm = if is_empty vm.error then false else true

-- The NUL is written after the characters, also where there is no room at all.
unfoldable pub forth_write : Vm → List ℕ → Vm
forth_write vm s =
    let out = vm.out ++ take (vm.out_max - 1 - length vm.out) s in
    record vm { out = out; fault = if ltb (length out) vm.out_max then vm.fault else true }

unfoldable pub set_error : Vm → List ℕ → Vm
set_error vm msg = if has_error vm then vm else record vm { error = take (error_max - 1) msg }

unfoldable pub forth_push : Vm → ℕ → Vm
forth_push vm v =
    if leb dstack_size (length vm.dstack)
    then set_error vm (codes "STACK FULL")
    else record vm { dstack = v ∷ vm.dstack }

-- `forth_pop`, followed by `k` on the value if there is one and by the return if there is none.
unfoldable pub pop_then : Vm → (ℕ → Vm → Vm) → Vm
pop_then vm k = elim vm.dstack [
  | [] ↦ set_error vm (codes "STACK EMPTY")
  | v ∷ rest ↦ k v (record vm { dstack = rest })
]

abbrev pub call_hook : Vm → Hook → Vm
call_hook vm h = record vm { hooks = h ∷ vm.hooks }

unfoldable pub init : Vm → Vm
init vm = record vm {
  dstack = [];
  error = [];
  code = [];
  dict = [];
  rstack = [];
  compiling = false;
  awaiting_name = false;
  compile_name = [];
  compile_start = 0;
  ctrl_stack = [];
  out = [];
  out_max = 0;
  fault = false;
}
