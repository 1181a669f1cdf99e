-- ===== src/Forth/Safety/Valid.antt =====
-- The invariant of the virtual machine between tokens.
use rave_os.Prelude.{
  inr, sym, inl, Bool-cases, subst, ℕ, ◌≤◌, ◌≡◌, true, false, List, [], ◌∷◌, some, get_elem?,
  length, if◌then◌else◌, arith,
}
use rave_os.Forth.Vm.{is_empty, Vm, Word, has_error, set_error}
use rave_os.Forth.Safety.Code.{Safe}
use rave_os.Forth.Safety.Open.{Open}
use rave_os.Forth.Safety.Fine.{Stored, set_error-Stored, has_error-set_error}

-- The end of the code that belongs to finished words.
abbrev pub sealed : Vm → ℕ
sealed vm = if vm.compiling then vm.compile_start else length vm.code

-- Every array is within its bounds, and every word of the dictionary is safe to run.
pub record Valid (vm : Vm) : Type 0 where
  pub dstack : length vm.dstack ≤ 128
  pub mem : length vm.mem ≡ 64
  pub stored : Stored vm
  pub code : length vm.code ≤ 2048
  pub dict : length vm.dict ≤ 64
  pub rstack : length vm.rstack ≤ 32
  pub ctrl_stack : length vm.ctrl_stack ≤ 8
  pub sealed_le : sealed vm ≤ length vm.code
  pub words :
      (j : ℕ) (w : Word)
      → get_elem? vm.dict j ≡ some w
      → Safe vm.code (length vm.dict) (sealed vm) w.code_start

-- While no error stands, no run is under way, and the definition that is open can be closed.
pub record Quiet (vm : Vm) : Type 0 where
  pub idle : vm.rstack ≡ []
  pub closed : vm.compiling ≡ false → vm.ctrl_stack ≡ []
  pub open_code :
      vm.compiling ≡ true
      → Open vm.code (length vm.dict) vm.compile_start vm.ctrl_stack (length vm.code)

pub record Inv (vm : Vm) : Type 0 where
  pub valid : Valid vm
  pub quiet : has_error vm ≡ false → Quiet vm

-- The invariant between two tokens of a definition, `bound` being the room for branch targets.
pub record Comp (vm : Vm) (bound : ℕ) : Type 0 where
  pub mode : vm.compiling ≡ true
  pub dstack : length vm.dstack ≤ 128
  pub mem : length vm.mem ≡ 64
  pub stored : Stored vm
  pub code : length vm.code ≤ 2048
  pub dict : length vm.dict ≤ 64
  pub idle : vm.rstack ≡ []
  pub ctrl_stack : length vm.ctrl_stack ≤ 8
  pub start_le : vm.compile_start ≤ length vm.code
  pub below : length vm.code ≤ bound
  pub words :
      (j : ℕ) (w : Word)
      → get_elem? vm.dict j ≡ some w
      → Safe vm.code (length vm.dict) vm.compile_start w.code_start
  pub open_code : Open vm.code (length vm.dict) vm.compile_start vm.ctrl_stack bound

set_error-Valid : (vm : Vm) (msg : List ℕ) → Valid vm → Valid (set_error vm msg)
unfolding set_error
set_error-Valid vm msg v =
    let kept = set_error-Stored vm msg v.stored in
    elim (Bool-cases (has_error vm)) [
      | inl e ↦ rw e v
      | inr e ↦ rw e (record {
        dstack = v.dstack;
        mem = v.mem;
        stored = rw e at kept;
        code = v.code;
        dict = v.dict;
        rstack = v.rstack;
        ctrl_stack = v.ctrl_stack;
        sealed_le = v.sealed_le;
        words = v.words;
      })
    ]

pub set_error-Inv :
    (vm : Vm) (msg : List ℕ) → is_empty msg ≡ false → Valid vm → Inv (set_error vm msg)
set_error-Inv vm [] h v = cc
set_error-Inv vm (c ∷ msg) h v = record {
  valid = set_error-Valid vm (c ∷ msg) v;
  quiet = λ e. cc (has_error-set_error vm c msg);
}

pub Comp-Valid : {vm : Vm} {bound : ℕ} → Comp vm bound → Valid vm
Comp-Valid {vm} c = record {
  dstack = c.dstack;
  mem = c.mem;
  stored = c.stored;
  code = c.code;
  dict = c.dict;
  rstack = rw c.idle (omega arith);
  ctrl_stack = c.ctrl_stack;
  sealed_le = subst (λ n. n ≤ length vm.code) (sym start) c.start_le;
  words = λ j w e.
      subst (λ n. Safe vm.code (length vm.dict) n w.code_start) (sym start) (c.words j w e);
}
  where
    start : sealed vm ≡ vm.compile_start
    start = rw c.mode

pub Comp-Inv : {vm : Vm} → Comp vm (length vm.code) → Inv vm
Comp-Inv {vm} c = record {
  valid = Comp-Valid c;
  quiet = λ _. record { idle = c.idle; closed = λ e. cc (c.mode); open_code = λ _. c.open_code };
}

pub Inv-Comp :
    {vm : Vm} → Inv vm → has_error vm ≡ false → vm.compiling ≡ true → Comp vm (length vm.code)
Inv-Comp {vm} i e m = record {
  mode = m;
  dstack = i.valid.dstack;
  mem = i.valid.mem;
  stored = i.valid.stored;
  code = i.valid.code;
  dict = i.valid.dict;
  idle = (i.quiet e).idle;
  ctrl_stack = i.valid.ctrl_stack;
  start_le = subst (λ n. n ≤ length vm.code) start i.valid.sealed_le;
  below = omega arith;
  words = λ j w h.
      subst (λ n. Safe vm.code (length vm.dict) n w.code_start) start (i.valid.words j w h);
  open_code = (i.quiet e).open_code m;
}
  where
    start : sealed vm ≡ vm.compile_start
    start = rw m
