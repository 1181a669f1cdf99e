-- ===== src/Forth/Exec.antt =====
-- kernel/forth/forth.c: running compiled code.
use rave_os.Prelude.{
  ℕ, zero, suc, ◌+◌, true, false, Option, none, some, List, [], ◌∷◌, ◌==◌, leb, if◌then◌else◌,
  length, get_elem?, codes,
}
use rave_os.Forth.Vm.{
  Vm, Instr, Op, literal, call_primitive, call_word, exit, branch, branch_if_zero, call_yield, Word,
  yields, rstack_size, has_error, set_error, forth_push, call_hook,
}
use rave_os.Forth.Words.{Primitive, primitives}

-- What one round of the loop of `forth_exec` does: it goes on at an address, it returns, or it has
-- read outside the code, the dictionary, the primitives or the return stack.
pub data Step : Type 0 where
  next : (ip : ℕ) → Vm → Step
  stop : Vm → Step
  wild : Step

abbrev pub run_primitive : Option Primitive → ℕ → Vm → Step
run_primitive none ip vm = wild
run_primitive (some p) ip vm = next (ip + 1) (p.fn vm)

abbrev pub enter_word : Option Word → ℕ → Vm → Step
enter_word none ip vm = wild
enter_word (some w) ip vm =
    if leb rstack_size (length vm.rstack)
    then stop (set_error vm (codes "RSTACK FULL"))
    else next w.code_start (record vm { rstack = (ip + 1) ∷ vm.rstack })

abbrev pub leave_word : List ℕ → Vm → Step
leave_word [] vm = wild
leave_word (ip ∷ rest) vm = next ip (record vm { rstack = rest })

abbrev pub choose : List ℕ → ℕ → ℕ → Vm → Step
choose [] target ip vm = stop (set_error vm (codes "STACK EMPTY"))
choose (cond ∷ rest) target ip vm =
    next (if cond == 0 then target else ip + 1) (record vm { dstack = rest })

-- The cases of the `switch`.
unfoldable pub dispatch : Op → ℕ → ℕ → ℕ → Vm → Step
dispatch literal arg base ip vm = next (ip + 1) (forth_push vm arg)
dispatch call_primitive arg base ip vm = run_primitive (get_elem? primitives arg) ip vm
dispatch call_word arg base ip vm = enter_word (get_elem? vm.dict arg) ip vm
dispatch exit arg base ip vm = if length vm.rstack == base then stop vm else leave_word vm.rstack vm
dispatch branch arg base ip vm = next arg vm
dispatch branch_if_zero arg base ip vm = choose vm.dstack arg ip vm
dispatch call_yield arg base ip vm = next (ip + 1) (call_hook vm yields)

abbrev pub fetch : Option Instr → ℕ → ℕ → Vm → Step
fetch none base ip vm = wild
fetch (some i) base ip vm = dispatch i.op i.arg base ip vm

-- How a run ends: with a machine, with a wild access, or not within its fuel.
pub data Outcome : Type 0 where
  done : Vm → Outcome
  crashed out_of_fuel : Outcome

-- The loop of `forth_exec`; each round uses one unit of fuel.
unfoldable pub exec_from : ℕ → ℕ → ℕ → Vm → Outcome
exec_from zero base ip vm = out_of_fuel
exec_from (suc fuel) base ip vm = elim (fetch (get_elem? vm.code ip) base ip vm) [
  | next ip' vm' ↦ elim (has_error vm') [ true ↦ done vm' | false ↦ exec_from fuel base ip' vm' ]
  | stop vm' ↦ done vm'
  | wild ↦ crashed
]

unfoldable pub forth_exec : ℕ → ℕ → Vm → Outcome
forth_exec fuel start_ip vm = exec_from fuel (length vm.rstack) start_ip vm
