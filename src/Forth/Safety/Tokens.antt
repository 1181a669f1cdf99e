-- ===== src/Forth/Safety/Tokens.antt =====
-- kernel/forth/forth.c, the control words of `handle_compile_token` and the invariant.
use rave_os.Prelude.{
  sym, ℕ, ◌≤◌, ◌≡◌, ◌≢◌, refl, true, false, Option, none, some, List, [], ◌∷◌, get_elem?, length,
  length-set, length-append, ◌+◌, ◌∙◌, leb, arith, Bool-cases, inl, inr, subst, ap,
  get_elem?-set_ne, codes,
}
use rave_os.Forth.Vm.{
  is_empty, Vm, call_yield, branch, code_size, ctrl_stack_size, set_error, Instr, branch_if_zero,
  Ctrl, Kind, kind_if, kind_begin, has_error,
}
use rave_os.Forth.Compile.{
  instr, forth_emit, compile_until, ctrl, same_kind, pop_entry, ctrl_pop, patch, patched, misses,
  compile_if, compile_else, compile_then, compile_begin,
}
use rave_os.Forth.Safety.Code.{Safe-mono}
use rave_os.Forth.Safety.Open.{Open, Open-patch, Open-mono, Open-begin, Open-end}
use rave_os.Forth.Safety.Valid.{Valid, Inv, Comp, Comp-Valid, Comp-Inv, set_error-Inv}
use rave_os.Forth.Safety.Compiling.{
  with_ctrl, open_branch-Inv, room_Comp, forth_emit-Inv, forth_emit_full, forth_emit_room,
  ctrl_push_full, ctrl_push_room,
}

length-patched :
    (o : Option Instr) (code : List Instr) (v t : ℕ) → length (patched o code v t) ≡ length code
length-patched none code v t = refl
length-patched (some i) code v t = length-set code v _

get_elem?-patched :
    (o : Option Instr) (code : List Instr) (v t j : ℕ)
    → v ≢ j
    → get_elem? (patched o code v t) j ≡ get_elem? code j
get_elem?-patched none code v t j ne = refl
get_elem?-patched (some i) code v t j ne = get_elem?-set_ne code v j _ ne

-- The entry of a branch is popped, and the branch is patched to a target within the bound.
patch-Comp :
    {vm : Vm} {b : ℕ} (v t : ℕ) (rest : List Ctrl)
    → vm.ctrl_stack ≡ ctrl kind_if v ∷ rest
    → vm.compile_start ≤ t
    → t ≤ b
    → Comp vm b
    → Comp (patch (with_ctrl vm rest) v t) b
unfolding patch
patch-Comp {vm} {b} v t rest e lo hi c = record {
  mode = c.mode;
  dstack = c.dstack;
  mem = c.mem;
  stored =
      let s = c.stored in
      (ap (λ found. misses found vm.fault) o.entries.0.2.1 ∙ s.0, s.1, s.2, s.3, s.4);
  code = omega (arith, same, c.code);
  dict = c.dict;
  idle = c.idle;
  ctrl_stack = omega (arith, ap {B = ℕ} length e, c.ctrl_stack);
  start_le = omega (arith, same, c.start_le);
  below = omega (arith, same, c.below);
  words = λ j w h.
      Safe-mono
        (λ k lt. get_elem?-patched (get_elem? vm.code v) vm.code v t k (omega (arith, o.entries.0)))
        (omega arith) (omega arith) (c.words j w h);
  open_code = Open-patch v t lo hi o;
}
  where
    o : Open vm.code (length vm.dict) vm.compile_start (ctrl kind_if v ∷ rest) b
    o = subst (λ l. Open vm.code (length vm.dict) vm.compile_start l b) e c.open_code

    same : length (patched (get_elem? vm.code v) vm.code v t) ≡ length vm.code
    same = length-patched (get_elem? vm.code v) vm.code v t

-- Popping an entry of the expected kind.
ctrl_pop-Inv :
    (vm : Vm) (kind : Kind) (msg : List ℕ) (k : ℕ → Vm → Vm)
    → is_empty msg ≡ false
    → Valid vm
    → ((v : ℕ) (rest : List Ctrl)
        → vm.ctrl_stack ≡ ctrl kind v ∷ rest
        → Inv (k v (with_ctrl vm rest)))
    → Inv (ctrl_pop vm kind msg k)
unfolding ctrl_pop
ctrl_pop-Inv vm kind msg k m v h = popped vm.ctrl_stack refl
  where
    matched :
        (found expected : Kind) (value : ℕ) (rest : List Ctrl)
        → same_kind found expected ≡ true
        → vm.ctrl_stack ≡ ctrl found value ∷ rest
        → vm.ctrl_stack ≡ ctrl expected value ∷ rest
    matched kind_if kind_if value rest s e = e
    matched kind_if kind_begin value rest s e = cc
    matched kind_begin kind_if value rest s e = cc
    matched kind_begin kind_begin value rest s e = e

    popped : (stack : List Ctrl) → vm.ctrl_stack ≡ stack → Inv (pop_entry vm stack kind msg k)
    popped [] e = set_error-Inv vm msg m v
    popped (x ∷ rest) e = elim (Bool-cases (same_kind x.kind kind)) [
      | inl s ↦ rw s (h x.value rest (matched x.kind kind x.value rest s e))
      | inr s ↦ rw s (set_error-Inv vm msg m v)
    ]

-- The bound reached is the length of the code.
Comp-Inv_len : {vm : Vm} {b : ℕ} → length vm.code ≡ b → Comp vm b → Inv vm
Comp-Inv_len {vm} e c = Comp-Inv (subst (λ n. Comp vm n) (sym e) c)

Comp-mono : {vm : Vm} {b b' : ℕ} → b ≤ b' → Comp vm b → Comp vm b'
Comp-mono h c = record {
  mode = c.mode;
  dstack = c.dstack;
  mem = c.mem;
  stored = c.stored;
  code = c.code;
  dict = c.dict;
  idle = c.idle;
  ctrl_stack = c.ctrl_stack;
  start_le = c.start_le;
  below = omega (arith, c.below);
  words = c.words;
  open_code = Open-mono h c.open_code;
}

-- Another control stack that suits the code.
with_ctrl-Comp :
    {vm : Vm} {b : ℕ} (stack : List Ctrl)
    → length stack ≤ 8
    → Open vm.code (length vm.dict) vm.compile_start stack b
    → Comp vm b
    → Comp (with_ctrl vm stack) b
with_ctrl-Comp stack h o c = record {
  mode = c.mode;
  dstack = c.dstack;
  mem = c.mem;
  stored = c.stored;
  code = c.code;
  dict = c.dict;
  idle = c.idle;
  ctrl_stack = h;
  start_le = c.start_le;
  below = c.below;
  words = c.words;
  open_code = o;
}

set_error-code : (vm : Vm) (msg : List ℕ) → (set_error vm msg).code ≡ vm.code
unfolding set_error
set_error-code vm msg = elim (Bool-cases (has_error vm)) [ inl e ↦ rw e refl | inr e ↦ rw e refl ]

-- The two instructions that end a loop.
loop_end-Inv :
    {vm : Vm} (v : ℕ)
    → Comp vm (length vm.code)
    → vm.compile_start ≤ v
    → v ≤ length vm.code
    → Inv (forth_emit (forth_emit vm call_yield 0) branch_if_zero v)
loop_end-Inv {vm} v c lo hi = elim (Bool-cases (leb code_size (length vm.code))) [
  | inl full ↦ rw (forth_emit_full vm call_yield 0 full) (
      rw
        (forth_emit_full failed branch_if_zero v
          (ap (λ code. leb code_size (length code)) (set_error-code vm (codes "CODE FULL")) ∙ full))
        (set_error-Inv failed (codes "CODE FULL") refl
          (set_error-Inv vm (codes "CODE FULL") refl (Comp-Valid c)).valid))
  | inr room ↦ rw (forth_emit_room vm call_yield 0 room) (
      forth_emit-Inv branch_if_zero v (room_Comp call_yield 0 c (omega arith) room tt) (omega arith)
        (inl (lo, omega (arith, length-append vm.code (instr call_yield 0 ∷ [])))))
]
  where
    failed : Vm
    failed = set_error vm (codes "CODE FULL")

module _ {vm : Vm} (no_error : has_error vm ≡ false) (c : Comp vm (length vm.code)) where
  pub compile_if-Inv : Inv (compile_if vm)
  unfolding compile_if
  compile_if-Inv = open_branch-Inv branch_if_zero tt no_error c (omega arith)

  size : (v t : ℕ) → length (patched (get_elem? vm.code v) vm.code v t) ≡ length vm.code
  size v t = length-patched (get_elem? vm.code v) vm.code v t

  pub compile_then-Inv : Inv (compile_then vm)
  unfolding compile_then patch
  compile_then-Inv =
      ctrl_pop-Inv vm kind_if (codes "MISMATCHED THEN") _ refl (Comp-Valid c) λ v rest e.
        Comp-Inv_len (size v (length vm.code))
          (patch-Comp v (length vm.code) rest e c.start_le (omega arith) c)

  pub compile_else-Inv : Inv (compile_else vm)
  unfolding compile_else patch
  compile_else-Inv =
      ctrl_pop-Inv vm kind_if (codes "MISMATCHED ELSE") _ refl (Comp-Valid c) λ v rest e.
        open_branch-Inv {b = length vm.code + 1} branch tt no_error
          (patch-Comp v (length vm.code + 1) rest e (omega (arith, c.start_le)) (omega arith)
            (Comp-mono (omega arith) c))
          (omega (arith, size v (length vm.code + 1)))

  pub compile_begin-Inv : Inv (compile_begin vm)
  unfolding compile_begin
  compile_begin-Inv = elim (Bool-cases (leb ctrl_stack_size (length vm.ctrl_stack))) [
    | inl deep ↦
        rw (ctrl_push_full vm kind_begin (length vm.code) deep)
          (set_error-Inv vm (codes "CTRL STACK FULL") refl (Comp-Valid c))
    | inr shallow ↦ rw (ctrl_push_room vm kind_begin (length vm.code) shallow) (
        Comp-Inv (
          with_ctrl-Comp (ctrl kind_begin (length vm.code) ∷ vm.ctrl_stack) (ground arith)
            (Open-begin (length vm.code) c.start_le (omega arith) c.open_code) c))
  ]

  pub compile_until-Inv : Inv (compile_until vm)
  unfolding compile_until
  compile_until-Inv =
      ctrl_pop-Inv vm kind_begin (codes "MISMATCHED UNTIL") _ refl (Comp-Valid c) λ v rest e.
        let o : Open vm.code (length vm.dict) vm.compile_start (ctrl kind_begin v ∷ rest)
            (length vm.code) =
          subst (λ l. Open vm.code (length vm.dict) vm.compile_start l (length vm.code)) e
            c.open_code in
        loop_end-Inv v
          (with_ctrl-Comp rest (omega (arith, ap {B = ℕ} length e, c.ctrl_stack)) (Open-end v o) c)
          o.entries.0.0 o.entries.0.1
