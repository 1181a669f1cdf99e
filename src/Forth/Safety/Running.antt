-- ===== src/Forth/Safety/Running.antt =====
-- kernel/forth/forth.c, `forth_exec`: the invariant of a run of compiled code.

use rave_os.Prelude.{
  ℕ, zero, suc, ◌+◌, ◌≤◌, ◌≡◌, refl, Bool, true, false, some, List, [], ◌∷◌, ◌==◌, leb,
  if◌then◌else◌, length, get_elem?, get_elem?_exists, arith, Bool-cases, inl, inr, subst, sym, ap,
  ◌∙◌,
}
use rave_os.Forth.Vm.{
  Vm, Instr, Op, literal, call_primitive, call_word, exit, branch, branch_if_zero, call_yield, Word,
  rstack_size, has_error, set_error, yields,
}
use rave_os.Forth.Exec.{
  Step, next, stop, wild, dispatch, fetch, enter_word, leave_word, choose, Outcome, done, crashed,
  out_of_fuel, exec_from,
}
use rave_os.Forth.Safety.Fine.{
  Stored, Fine, InBounds-Fine, set_error-Fine, has_error-set_error, forth_push-Fine, call_hook-Fine,
}
use rave_os.Forth.Safety.Primitives.{primitive-Fine, primitive_exists}
use rave_os.Forth.Safety.Code.{Safe, ArgOk, Safe-next, Safe-target}

-- `before` is the machine at the start of a run, `limit` the end of the code that may run, and
-- `base` the depth of the return stack at the start.
module _ (before : Vm) (limit base : ℕ) where
  abbrev pub Ip : ℕ → Type 0
  Ip k = Safe before.code (length before.dict) limit k

  abbrev pub AllSafe : List ℕ → Type 0
  AllSafe [] = Unit {0}
  AllSafe (k ∷ ks) = Ip k × AllSafe ks

  -- What a run never changes, and the bounds that it keeps.
  pub record Steady (vm : Vm) : Type 0 where
    pub code : vm.code ≡ before.code
    pub dict : vm.dict ≡ before.dict
    pub compiling : vm.compiling ≡ before.compiling
    pub compile_start : vm.compile_start ≡ before.compile_start
    pub ctrl_stack : vm.ctrl_stack ≡ before.ctrl_stack
    pub dstack : length vm.dstack ≤ 128
    pub mem : length vm.mem ≡ 64
    pub stored : Stored vm
    pub shallow : length vm.rstack ≤ 32

  -- A run under way.
  pub record Runs (vm : Vm) : Type 0 where
    pub steady : Steady vm
    pub returns : AllSafe vm.rstack
    pub deep : base ≤ length vm.rstack

  -- A run that has ended: without an error it leaves the return stack as deep as it was.
  pub record Ended (vm : Vm) : Type 0 where
    pub steady : Steady vm
    pub balanced : has_error vm ≡ false → length vm.rstack ≡ base

  abbrev StepOk : Step → Type 0
  StepOk (next ip vm) = Ip ip × Runs vm
  StepOk (stop vm) = Ended vm
  StepOk wild = ⊥

  abbrev pub OutcomeOk : Outcome → Type 0
  OutcomeOk (done vm) = Ended vm
  OutcomeOk crashed = ⊥
  OutcomeOk out_of_fuel = Unit {0}

  Fine-Runs : {vm vm' : Vm} → Fine vm vm' → Runs vm → Runs vm'
  Fine-Runs {vm} {vm'} f r = record {
    steady = record {
      code = f.code ∙ r.steady.code;
      dict = f.dict ∙ r.steady.dict;
      compiling = f.compiling ∙ r.steady.compiling;
      compile_start = f.compile_start ∙ r.steady.compile_start;
      ctrl_stack = f.ctrl_stack ∙ r.steady.ctrl_stack;
      dstack = f.dstack;
      mem = f.mem;
      stored = f.stored;
      shallow = subst (λ (l : List ℕ). length l ≤ 32) (sym f.rstack) r.steady.shallow;
    };
    returns = subst AllSafe (sym f.rstack) r.returns;
    deep = subst (λ (l : List ℕ). base ≤ length l) (sym f.rstack) r.deep;
  }

  refl-Fine : {vm : Vm} → Runs vm → Fine vm vm
  refl-Fine r =
      InBounds-Fine
        (record { dstack = r.steady.dstack; mem = r.steady.mem; stored = r.steady.stored })

  failed : {vm : Vm} (c : ℕ) (msg : List ℕ) → Runs vm → Ended (set_error vm (c ∷ msg))
  failed {vm} c msg r = record {
    steady = (Fine-Runs (set_error-Fine vm (c ∷ msg) (refl-Fine r)) r).steady;
    balanced = λ e. cc (has_error-set_error vm c msg);
  }

  -- The machine after a change of the return stack.
  with_rstack :
      {vm : Vm} (stack : List ℕ)
      → Runs vm
      → AllSafe stack
      → base ≤ length stack
      → length stack ≤ 32
      → Runs (record vm { rstack = stack })
  with_rstack stack r safe deep shallow = record {
    steady = record {
      code = r.steady.code;
      dict = r.steady.dict;
      compiling = r.steady.compiling;
      compile_start = r.steady.compile_start;
      ctrl_stack = r.steady.ctrl_stack;
      dstack = r.steady.dstack;
      mem = r.steady.mem;
      stored = r.steady.stored;
      shallow = shallow;
    };
    returns = safe;
    deep = deep;
  }

  returned :
      (stack : List ℕ) {vm : Vm}
      → vm.rstack ≡ stack
      → Runs vm
      → (length vm.rstack ≡ base → ⊥)
      → StepOk (leave_word stack vm)
  returned [] e r ne = absurd (ne (omega (arith, ap {B = ℕ} length e, r.deep)))
  returned (k ∷ ks) {vm} e r ne =
      let all = subst AllSafe e r.returns in
      let depth = ap {B = ℕ} length e in
      (
        all.0,
        with_rstack ks r all.1 (omega (arith, depth, r.deep, ne))
            (omega (arith, depth, r.steady.shallow)),
      )

  chosen :
      (stack : List ℕ) (target ip : ℕ) {vm : Vm}
      → vm.dstack ≡ stack
      → Runs vm
      → Ip target
      → Ip (ip + 1)
      → StepOk (choose stack target ip vm)
  chosen [] target ip e r t n = failed _ _ r
  chosen (c ∷ rest) target ip {vm} e r t n = (
    either (c == 0),
    record {
      steady = record {
        code = r.steady.code;
        dict = r.steady.dict;
        compiling = r.steady.compiling;
        compile_start = r.steady.compile_start;
        ctrl_stack = r.steady.ctrl_stack;
        dstack = omega (arith, ap {B = ℕ} length e, r.steady.dstack);
        mem = r.steady.mem;
        stored = r.steady.stored;
        shallow = r.steady.shallow;
      };
      returns = r.returns;
      deep = r.deep;
    },
  )
    where
      either : (b : Bool) → Ip (if b then target else ip + 1)
      either true = t
      either false = n

  -- Every word of the dictionary starts at a safe address.
  abbrev pub WordsSafe : Type 0
  WordsSafe = (j : ℕ) (w : Word) → get_elem? before.dict j ≡ some w → Ip w.code_start

  entered :
      (w : Word) (ip : ℕ) {vm : Vm}
      → Runs vm
      → Ip w.code_start
      → Ip (ip + 1)
      → StepOk (enter_word (some w) ip vm)
  entered w ip {vm} r start n = elim (Bool-cases (leb rstack_size (length vm.rstack))) [
    | inl e ↦ rw e (failed _ _ r)
    | inr e ↦ rw e (
      start,
      with_rstack ((ip + 1) ∷ vm.rstack) r (n, r.returns) (omega (arith, r.deep)) (ground arith),
    )
  ]

  -- One instruction at a safe address.
  dispatch-StepOk :
      (words : WordsSafe) (op : Op) {ip : ℕ} {i : Instr} {vm : Vm} (x : Ip ip)
      → get_elem? before.code ip ≡ some i
      → i.op ≡ op
      → ArgOk (length before.dict) x.start x.end op i.arg
      → Runs vm
      → StepOk (dispatch op i.arg base ip vm)
  unfolding dispatch
  dispatch-StepOk words literal {i = i} {vm} x at e a r =
      (Safe-next x at (λ h. cc), Fine-Runs (forth_push-Fine vm i.arg (refl-Fine r)) r)
  dispatch-StepOk words call_primitive {ip} {i} {vm} x at e a r =
      let (p, found) = primitive_exists i.arg a in
      rw found
        (Safe-next x at (λ h. cc), Fine-Runs (primitive-Fine i.arg found vm vm (refl-Fine r)) r)
  dispatch-StepOk words call_word {ip} {i} {vm} x at e a r =
      let (w, found) = get_elem?_exists before.dict i.arg a in
      subst (λ o. StepOk (enter_word o ip vm))
        (sym (ap (λ d. get_elem? d i.arg) r.steady.dict ∙ found))
        (entered w ip r (words i.arg w found) (Safe-next x at (λ h. cc)))
  dispatch-StepOk words exit {vm = vm} x at e a r = elim (Bool-cases (length vm.rstack == base)) [
    | inl d ↦ rw d (record { steady = r.steady; balanced = λ _. ground arith })
    | inr d ↦ rw d (returned vm.rstack refl r (λ h. ground arith))
  ]
  dispatch-StepOk words branch {i = i} x at e a r = (Safe-target x i.arg a.0 a.1, r)
  dispatch-StepOk words branch_if_zero {ip} {i} {vm} x at e a r =
      chosen vm.dstack i.arg ip refl r (Safe-target x i.arg a.0 a.1) (Safe-next x at (λ h. cc))
  dispatch-StepOk words call_yield {vm = vm} x at e a r =
      (Safe-next x at (λ h. cc), Fine-Runs (call_hook-Fine vm yields (refl-Fine r)) r)

  fetch-StepOk :
      WordsSafe
      → (ip : ℕ) {vm : Vm} → Ip ip
      → Runs vm
      → StepOk (fetch (get_elem? vm.code ip) base ip vm)
  fetch-StepOk words ip {vm} x r =
      let (i, at, ok) = x.body.all ip x.from_start x.before_end in
      subst (λ o. StepOk (fetch o base ip vm)) (sym (ap (λ c. get_elem? c ip) r.steady.code ∙ at))
        (dispatch-StepOk words i.op x at refl ok r)

  -- When the words of the dictionary and the address `ip` are safe in the code below `limit`, and the
  -- return stack of `vm` has safe addresses and at least `base` of them, a run from `ip` with any fuel
  -- runs out of it or ends, with the code and the dictionary as before, no access outside an array, every
  -- array, the output, the error message and the names within their bounds and, unless there is an error, the return stack back at `base`; it never reads or jumps outside
  -- the code, the dictionary, the primitives or the return stack.
  pub exec_from-OutcomeOk :
      WordsSafe → (fuel ip : ℕ) (vm : Vm) → Ip ip → Runs vm → OutcomeOk (exec_from fuel base ip vm)
  unfolding exec_from
  exec_from-OutcomeOk words zero ip vm x r = tt
  exec_from-OutcomeOk words (suc fuel) ip vm x r =
      after (fetch (get_elem? vm.code ip) base ip vm) (fetch-StepOk words ip x r)
        (exec_from-OutcomeOk words fuel)
    where
      after :
          (s : Step)
          → StepOk s
          → ((ip : ℕ) (vm : Vm) → Ip ip → Runs vm → OutcomeOk (exec_from fuel base ip vm))
          → OutcomeOk (elim s [
            | next ip' vm' ↦ elim (has_error vm') [
              | true ↦ done vm'
              | false ↦ exec_from fuel base ip' vm'
            ]
            | stop vm' ↦ done vm'
            | wild ↦ crashed
          ])
      after (next ip' vm') ok go = tested (has_error vm') refl
        where
          tested :
              (b : Bool)
              → has_error vm' ≡ b
              → OutcomeOk (elim b [ true ↦ done vm' | false ↦ exec_from fuel base ip' vm' ])
          tested true e = record { steady = ok.1.steady; balanced = λ h. cc }
          tested false e = go ip' vm' ok.0 ok.1
      after (stop vm') ok go = ok
      after wild ok go = ok
