-- ===== src/Forth/Safety/Compiling.antt =====
-- kernel/forth/forth.c, `forth_emit` and `ctrl_push`: emitting instructions and the invariant.
use rave_os.Prelude.{
  get_elem?-append_last, ℕ, ◌+◌, ◌≤◌, ◌<◌, ◌≡◌, refl, true, false, List, [], ◌∷◌, ◌++◌, leb, length,
  length-append, arith, Bool-cases, inl, inr, subst, sym, get_elem?-append_left, codes,
}
use rave_os.Forth.Vm.{
  Vm, Op, literal, call_primitive, call_word, exit, branch, branch_if_zero, call_yield, Ctrl, Kind,
  kind_if, has_error, set_error, code_size, ctrl_stack_size,
}
use rave_os.Forth.Compile.{instr, ctrl, forth_emit, ctrl_push, unpatched, open_branch}
use rave_os.Forth.Safety.Code.{Safe, Safe-mono}
use rave_os.Forth.Safety.Fine.{has_error-set_error}
use rave_os.Forth.Safety.Open.{
  Open, OpenArg, IsBranch, Open-append, EntriesOk, EntriesOk-append, Pending,
}
use rave_os.Forth.Safety.Valid.{sealed, Valid, Inv, Comp, Comp-Valid, Comp-Inv, set_error-Inv}

-- The machine with one more instruction, and with one more entry on the control stack.
abbrev pub emitted : Vm → Op → ℕ → Vm
emitted vm op arg = record vm { code = vm.code ++ (instr op arg ∷ []) }

abbrev pub with_ctrl : Vm → List Ctrl → Vm
with_ctrl vm stack = record vm { ctrl_stack = stack }

-- One more instruction, with the control stack `stack` afterwards.
emitted-Comp :
    {vm : Vm} {b : ℕ} (stack : List Ctrl) (op : Op) (arg : ℕ)
    → Comp vm b
    → length vm.code < 2048
    → b ≤ length vm.code + 1
    → length stack ≤ 8
    → ((k : ℕ) → Pending k vm.ctrl_stack → Pending k stack)
    → OpenArg (length vm.dict) vm.compile_start (length vm.code + 1) stack (length vm.code) op arg
    → EntriesOk (vm.code ++ (instr op arg ∷ [])) vm.compile_start (length vm.code + 1) stack
    → Comp (with_ctrl (emitted vm op arg) stack) (length (vm.code ++ (instr op arg ∷ [])))
emitted-Comp {vm} {b} stack op arg c room h shallow more ok entries = record {
  mode = c.mode;
  dstack = c.dstack;
  mem = c.mem;
  stored = c.stored;
  code = omega (arith, grown);
  dict = c.dict;
  idle = c.idle;
  ctrl_stack = shallow;
  start_le = omega (arith, grown, c.start_le);
  below = omega arith;
  words = λ j w e.
      Safe-mono
        (λ k lt. get_elem?-append_left vm.code (instr op arg ∷ []) k (omega (arith, c.start_le)))
        (omega arith) (omega arith) (c.words j w e);
  open_code =
      subst (λ n. Open (vm.code ++ (instr op arg ∷ [])) (length vm.dict) vm.compile_start stack n)
        (sym grown) (Open-append stack (instr op arg) h more ok entries c.open_code);
}
  where
    grown : length (vm.code ++ (instr op arg ∷ [])) ≡ length vm.code + 1
    grown = length-append vm.code (instr op arg ∷ [])

pub forth_emit_full :
    (vm : Vm) (op : Op) (arg : ℕ)
    → leb code_size (length vm.code) ≡ true
    → forth_emit vm op arg ≡ set_error vm (codes "CODE FULL")
unfolding forth_emit
forth_emit_full vm op arg e = rw e

pub forth_emit_room :
    (vm : Vm) (op : Op) (arg : ℕ)
    → leb code_size (length vm.code) ≡ false
    → forth_emit vm op arg ≡ emitted vm op arg
unfolding forth_emit
forth_emit_room vm op arg e = rw e

pub ctrl_push_full :
    (vm : Vm) (kind : Kind) (v : ℕ)
    → leb ctrl_stack_size (length vm.ctrl_stack) ≡ true
    → ctrl_push vm kind v ≡ set_error vm (codes "CTRL STACK FULL")
unfolding ctrl_push
ctrl_push_full vm kind v e = rw e

pub ctrl_push_room :
    (vm : Vm) (kind : Kind) (v : ℕ)
    → leb ctrl_stack_size (length vm.ctrl_stack) ≡ false
    → ctrl_push vm kind v ≡ with_ctrl vm (ctrl kind v ∷ vm.ctrl_stack)
unfolding ctrl_push
ctrl_push_room vm kind v e = rw e

-- An emission that has room.
pub room_Comp :
    {vm : Vm} {b : ℕ} (op : Op) (arg : ℕ)
    → Comp vm b
    → b ≤ length vm.code + 1
    → leb code_size (length vm.code) ≡ false
    → OpenArg
        (length vm.dict)
        vm.compile_start
        (length vm.code + 1)
        vm.ctrl_stack
        (length vm.code)
        op
        arg
    → Comp (emitted vm op arg) (length (vm.code ++ (instr op arg ∷ [])))
room_Comp {vm} {b} op arg c h e ok =
    emitted-Comp vm.ctrl_stack op arg c (ground arith) h c.ctrl_stack (λ k p. p) ok
      (EntriesOk-append vm.code vm.compile_start b (length vm.code + 1) vm.ctrl_stack (instr op arg)
        h c.open_code.entries)

pub forth_emit-Inv :
    {vm : Vm} {b : ℕ} (op : Op) (arg : ℕ)
    → Comp vm b
    → b ≤ length vm.code + 1
    → OpenArg
        (length vm.dict)
        vm.compile_start
        (length vm.code + 1)
        vm.ctrl_stack
        (length vm.code)
        op
        arg
    → Inv (forth_emit vm op arg)
forth_emit-Inv {vm} {b} op arg c h ok = elim (Bool-cases (leb code_size (length vm.code))) [
  | inl e ↦
      rw (forth_emit_full vm op arg e) (set_error-Inv vm (codes "CODE FULL") refl (Comp-Valid c))
  | inr e ↦ rw (forth_emit_room vm op arg e) (Comp-Inv (room_Comp op arg c h e ok))
]

branch_ok :
    (words s b k : ℕ) (stack : List Ctrl) (op : Op) (a : ℕ)
    → IsBranch op
    → Pending k stack
    → OpenArg words s b stack k op a
branch_ok words s b k stack branch a is p = inr p
branch_ok words s b k stack branch_if_zero a is p = inr p
branch_ok words s b k stack literal a is p = absurd is
branch_ok words s b k stack call_primitive a is p = absurd is
branch_ok words s b k stack call_word a is p = absurd is
branch_ok words s b k stack exit a is p = absurd is
branch_ok words s b k stack call_yield a is p = absurd is

-- The branch and its entry, both with room.
opened-Comp :
    {vm : Vm} {b : ℕ} (op : Op)
    → IsBranch op
    → Comp vm b
    → b ≤ length vm.code + 1
    → length vm.code < 2048
    → length vm.ctrl_stack < 8
    → Comp
        (with_ctrl (emitted vm op unpatched) (ctrl kind_if (length vm.code) ∷ vm.ctrl_stack))
        (length (vm.code ++ (instr op unpatched ∷ [])))
opened-Comp {vm} {b} op is c h room shallow =
    emitted-Comp (ctrl kind_if (length vm.code) ∷ vm.ctrl_stack) op unpatched c room h (omega arith)
      (λ k p. inr p)
      (branch_ok (length vm.dict) vm.compile_start (length vm.code + 1) (length vm.code)
        (ctrl kind_if (length vm.code) ∷ vm.ctrl_stack) op unpatched is (inl (refl, refl)))
      (
        (
          c.start_le,
          omega (arith, length-append vm.code (instr op unpatched ∷ [])),
          (instr op unpatched, get_elem?-append_last vm.code (instr op unpatched), is),
        ),
        EntriesOk-append vm.code vm.compile_start b (length vm.code + 1) vm.ctrl_stack
            (instr op unpatched) h c.open_code.entries,
      )

-- The branch without its entry is no invariant of the definition, but the machine is still valid.
pub emitted-Valid :
    {vm : Vm} {b : ℕ} (op : Op) (arg : ℕ)
    → Comp vm b
    → length vm.code < 2048
    → Valid (emitted vm op arg)
emitted-Valid {vm} op arg c room = record {
  dstack = c.dstack;
  mem = c.mem;
  stored = c.stored;
  code = omega (arith, length-append vm.code (instr op arg ∷ []));
  dict = c.dict;
  rstack = v.rstack;
  ctrl_stack = c.ctrl_stack;
  sealed_le =
      subst (λ n. n ≤ length (vm.code ++ (instr op arg ∷ []))) (sym start)
        (omega (arith, length-append vm.code (instr op arg ∷ []), c.start_le));
  words = λ j w e.
      subst (λ n. Safe (vm.code ++ (instr op arg ∷ [])) (length vm.dict) n w.code_start) (sym start)
        (Safe-mono
          (λ k lt. get_elem?-append_left vm.code (instr op arg ∷ []) k (omega (arith, c.start_le)))
          (omega arith) (omega arith) (c.words j w e));
}
  where
    v : Valid vm
    v = Comp-Valid c

    start : sealed (emitted vm op arg) ≡ vm.compile_start
    start = rw c.mode

-- An IF, or the second half of an ELSE.
pub open_branch-Inv :
    {vm : Vm} {b : ℕ} (op : Op)
    → IsBranch op
    → has_error vm ≡ false
    → Comp vm b
    → b ≤ length vm.code + 1
    → Inv (open_branch vm op)
unfolding open_branch
open_branch-Inv {vm} {b} op is e c h = elim (Bool-cases (leb code_size (length vm.code))) [
  | inl full ↦
      rw (forth_emit_full vm op unpatched full, failed)
        (set_error-Inv vm (codes "CODE FULL") refl (Comp-Valid c))
  | inr room ↦
      rw (forth_emit_room vm op unpatched room, e)
        (pushed (emitted-Valid op unpatched c (ground arith))
          (opened-Comp op is c h (ground arith)))
]
  where
    failed : has_error (set_error vm (codes "CODE FULL")) ≡ true
    failed = has_error-set_error vm _ _

    pushed :
        Valid (emitted vm op unpatched)
        → (length vm.ctrl_stack < 8
            → Comp
                (with_ctrl
                  (emitted vm op unpatched)
                  (ctrl kind_if (length vm.code) ∷ vm.ctrl_stack))
                (length (vm.code ++ (instr op unpatched ∷ []))))
        → Inv (ctrl_push (emitted vm op unpatched) kind_if (length vm.code))
    pushed v k = elim (Bool-cases (leb ctrl_stack_size (length vm.ctrl_stack))) [
      | inl deep ↦
          rw (ctrl_push_full (emitted vm op unpatched) kind_if (length vm.code) deep)
            (set_error-Inv (emitted vm op unpatched) (codes "CTRL STACK FULL") refl v)
      | inr shallow ↦
          rw (ctrl_push_room (emitted vm op unpatched) kind_if (length vm.code) shallow)
            (Comp-Inv (k (ground arith)))
    ]
