-- ===== src/Forth/Safety/Immediate.antt =====
-- kernel/forth/forth.c, `handle_immediate_token` and the loop over the tokens of a line, and the invariant.
use rave_os.Prelude.{
  ℕ, ◌≡◌, refl, Bool, true, false, Option, none, some, List, [], ◌∷◌, if◌then◌else◌, get_elem?,
  get_elem?_exists, length, arith, subst, sym, ap, ◌∙◌, codes,
}
use rave_os.Forth.Numbers.{parse_int, str_eq_ci}
use rave_os.Forth.Vm.{Vm, Word, has_error}
use rave_os.Forth.Exec.{Outcome, done, crashed, out_of_fuel, forth_exec, exec_from}
use rave_os.Forth.Compile.{handle_compile_token, find_name, primitive_names, word_names}
use rave_os.Forth.Eval.{
  start_definition, execute_word, execute_named, call_directly, execute_primitive, execute_number,
  handle_immediate_token, handle_token, eval_tokens,
}
use rave_os.Forth.Safety.Code.{Safe, Safe-mono}
use rave_os.Forth.Safety.Fine.{Fine, InBounds-Fine, forth_push-Fine}
use rave_os.Forth.Safety.Primitives.{primitive-Fine, primitive_exists}
use rave_os.Forth.Safety.Running.{Ended, Runs, AllSafe, OutcomeOk, exec_from-OutcomeOk}
use rave_os.Forth.Safety.Open.{Open}
use rave_os.Forth.Safety.Valid.{sealed, Quiet, Inv, Inv-Comp, set_error-Inv}
use rave_os.Forth.Safety.Definitions.{
  find_name-lt, length-map, primitive_lt, handle_compile_token-Inv,
}

abbrev pub TokenOk : Outcome → Type 0
TokenOk (done vm) = Inv vm
TokenOk crashed = ⊥
TokenOk out_of_fuel = Unit {0}

module _ {vm : Vm} (no_error : has_error vm ≡ false) (immediate : vm.compiling ≡ false)
    (i : Inv vm) where
  quiet : Quiet vm
  quiet = i.quiet no_error

  -- After a run or a primitive.
  Ended-Inv : {vm' : Vm} → Ended vm (sealed vm) (length vm.rstack) vm' → Inv vm'
  Ended-Inv {vm'} f = record {
    valid = record {
      dstack = f.steady.dstack;
      mem = f.steady.mem;
      stored = f.steady.stored;
      code = omega (arith, same_code, i.valid.code);
      dict = omega (arith, same_dict, i.valid.dict);
      rstack = f.steady.shallow;
      ctrl_stack = omega (arith, ap {B = ℕ} length f.steady.ctrl_stack, i.valid.ctrl_stack);
      sealed_le = omega (arith, same_sealed, same_code, i.valid.sealed_le);
      words = λ j w e.
          Safe-mono (λ k lt. ap (λ c. get_elem? c k) f.steady.code) (omega (arith, same_dict))
            (omega (arith, same_sealed))
            (i.valid.words j w (sym (ap (λ d. get_elem? d j) f.steady.dict) ∙ e));
    };
    quiet = λ e. record {
      idle = empty vm'.rstack (f.balanced e ∙ ap {B = ℕ} length quiet.idle);
      closed = λ _. f.steady.ctrl_stack ∙ quiet.closed immediate;
      open_code = λ m. cc (sym m ∙ f.steady.compiling ∙ immediate);
    };
  }
    where
      same_code : length vm'.code ≡ length vm.code
      same_code = ap length f.steady.code

      same_dict : length vm'.dict ≡ length vm.dict
      same_dict = ap length f.steady.dict

      same_sealed : sealed vm' ≡ sealed vm
      same_sealed = rw (f.steady.compiling, f.steady.compile_start, f.steady.code) refl

      empty : (l : List ℕ) → length l ≡ 0 → l ≡ []
      empty [] e = refl
      empty (x ∷ l) e = absurd (omega arith)

  Fine-Inv : {vm' : Vm} → Fine vm vm' → Inv vm'
  Fine-Inv {vm'} f = Ended-Inv (record {
    steady = record {
      code = f.code;
      dict = f.dict;
      compiling = f.compiling;
      compile_start = f.compile_start;
      ctrl_stack = f.ctrl_stack;
      dstack = f.dstack;
      mem = f.mem;
      stored = f.stored;
      shallow = omega (arith, ap {B = ℕ} length f.rstack, i.valid.rstack);
    };
    balanced = λ _. ap length f.rstack;
  })

  fine : Fine vm vm
  fine =
      InBounds-Fine (record { dstack = i.valid.dstack; mem = i.valid.mem; stored = i.valid.stored })

  start_definition-Inv : Inv (start_definition vm)
  start_definition-Inv = record {
    valid = record {
      dstack = i.valid.dstack;
      mem = i.valid.mem;
      stored = i.valid.stored;
      code = i.valid.code;
      dict = i.valid.dict;
      rstack = i.valid.rstack;
      ctrl_stack = i.valid.ctrl_stack;
      sealed_le = omega arith;
      words = λ j w e.
          subst (λ n. Safe vm.code (length vm.dict) n w.code_start) here (i.valid.words j w e);
    };
    quiet = λ _. record {
      idle = quiet.idle;
      closed = λ e. cc e;
      open_code = λ _.
          subst (λ l. Open vm.code (length vm.dict) (length vm.code) l (length vm.code))
            (sym (quiet.closed immediate))
            (record { instrs = λ k lo hi. absurd (omega arith); entries = tt });
    };
  }
    where
      here : sealed vm ≡ length vm.code
      here = rw immediate refl

  OutcomeOk-TokenOk : (o : Outcome) → OutcomeOk vm (sealed vm) (length vm.rstack) o → TokenOk o
  OutcomeOk-TokenOk (done vm') x = Ended-Inv x
  OutcomeOk-TokenOk crashed x = x
  OutcomeOk-TokenOk out_of_fuel x = x

  run-TokenOk :
      (fuel j : ℕ) (w : Word)
      → get_elem? vm.dict j ≡ some w
      → TokenOk (forth_exec fuel w.code_start vm)
  unfolding forth_exec
  run-TokenOk fuel j w e = OutcomeOk-TokenOk (exec_from fuel (length vm.rstack) w.code_start vm) (
      exec_from-OutcomeOk vm (sealed vm) (length vm.rstack) i.valid.words fuel w.code_start vm
        (i.valid.words j w e) runs)
    where
      runs : Runs vm (sealed vm) (length vm.rstack) vm
      runs = record {
        steady = record {
          code = refl;
          dict = refl;
          compiling = refl;
          compile_start = refl;
          ctrl_stack = refl;
          dstack = i.valid.dstack;
          mem = i.valid.mem;
          stored = i.valid.stored;
          shallow = i.valid.rstack;
        };
        returns = subst (AllSafe vm (sealed vm) (length vm.rstack)) (sym quiet.idle) tt;
        deep = omega arith;
      }

  handle_immediate_token-TokenOk :
      (fuel : ℕ) (token : List ℕ) → TokenOk (handle_immediate_token fuel vm token)
  unfolding handle_immediate_token
  handle_immediate_token-TokenOk fuel token = first (str_eq_ci token (codes ":"))
    where
      named :
          (o : Option ℕ) → find_name 0 (word_names vm) token ≡ o → TokenOk (execute_named fuel o vm)
      named none e = set_error-Inv vm (codes "UNKNOWN") refl i.valid
      named (some j) e =
          let (w, at) = get_elem?_exists vm.dict j (
            omega (
              arith,
              find_name-lt 0 (word_names vm) token j e,
              length-map (λ (w : Word). w.name) vm.dict,
            )) in
          subst (λ o. TokenOk (execute_word fuel o vm)) (sym at) (run-TokenOk fuel j w at)

      primitive :
          (o : Option ℕ)
          → find_name 0 primitive_names token ≡ o
          → TokenOk (execute_primitive fuel o token vm)
      primitive none e = named (find_name 0 (word_names vm) token) refl
      primitive (some j) e =
          let (p, at) = primitive_exists j (primitive_lt j token e) in
          subst (λ o. TokenOk (call_directly o vm)) (sym at)
            (Fine-Inv (primitive-Fine j at vm vm fine))

      number : (o : Option ℕ) → TokenOk (execute_number fuel o token vm)
      number none = primitive (find_name 0 primitive_names token) refl
      number (some n) = Fine-Inv (forth_push-Fine vm n fine)

      first :
          (b : Bool)
          → TokenOk (
              if b
              then done (start_definition vm)
              else execute_number fuel (parse_int token) token vm)
      first true = start_definition-Inv
      first false = number (parse_int token)

if-TokenOk :
    (b : Bool) (x y : Outcome)
    → (b ≡ true → TokenOk x)
    → (b ≡ false → TokenOk y)
    → TokenOk (if b then x else y)
if-TokenOk true x y h k = h refl
if-TokenOk false x y h k = k refl

handle_token-TokenOk :
    (fuel : ℕ) (vm : Vm) (token : List ℕ)
    → has_error vm ≡ false
    → Inv vm
    → TokenOk (handle_token fuel vm token)
unfolding handle_token
handle_token-TokenOk fuel vm token e i =
    if-TokenOk vm.compiling (done (handle_compile_token vm token))
      (handle_immediate_token fuel vm token)
      (λ m. handle_compile_token-Inv e (Inv-Comp i e m) token)
      (λ m. handle_immediate_token-TokenOk e m i fuel token)

pub eval_tokens-TokenOk :
    (fuel : ℕ) (tokens : List (List ℕ)) (vm : Vm) → Inv vm → TokenOk (eval_tokens fuel tokens vm)
unfolding eval_tokens
eval_tokens-TokenOk fuel [] vm i = i
eval_tokens-TokenOk fuel (t ∷ ts) vm i = tested (has_error vm) refl (eval_tokens-TokenOk fuel ts)
  where
    after :
        (o : Outcome)
        → TokenOk o
        → ((vm : Vm) → Inv vm → TokenOk (eval_tokens fuel ts vm))
        → TokenOk (elim o [
          | done vm' ↦ eval_tokens fuel ts vm'
          | crashed ↦ crashed
          | out_of_fuel ↦ out_of_fuel
        ])
    after (done vm') x go = go vm' x
    after crashed x go = x
    after out_of_fuel x go = x

    tested :
        (b : Bool)
        → has_error vm ≡ b
        → ((vm : Vm) → Inv vm → TokenOk (eval_tokens fuel ts vm))
        → TokenOk (elim b [
          | true ↦ done vm
          | false ↦ elim (handle_token fuel vm t) [
            | done vm' ↦ eval_tokens fuel ts vm'
            | crashed ↦ crashed
            | out_of_fuel ↦ out_of_fuel
          ]
        ])
    tested true e go = i
    tested false e go = after (handle_token fuel vm t) (handle_token-TokenOk fuel vm t e i) go
