-- ===== src/Forth/Tests.antt =====
-- Runs of the interpreter.
use rave_os.Prelude.{
  Every, List, ◌<◌, ◌≤◌, eq_of_some, subst, ℕ, zero, suc, [], ◌∷◌, refl, false, codes, replicate,
  arith,
}
use rave_os.Forth.Vm.{init, Vm, literal, call_primitive, exit}
use rave_os.Forth.Compile.{instr}
use rave_os.Forth.Words.{primitives}
use rave_os.Forth.Exec.{exec_from}
use rave_os.Forth.Safety.Running.{OutcomeOk, exec_from-OutcomeOk, WordsSafe, Ip, Runs}
use rave_os.Forth.Safety.Buffers.{LineFits}
use rave_os.Forth.Safety.Lines.{LineOk, eval_lines, eval_lines-LineOk}
use rave_os.Forth.Safety.Code.{ArgOk, InstrAt, Body}

-- A machine with the word `: W 7 DUP ;`.
abbrev one_word : Vm
one_word = record {
  dstack = [];
  error = [];
  mem = replicate 64 0;
  code = instr literal 7 ∷ instr call_primitive 4 ∷ instr exit 0 ∷ [];
  dict = record { name = codes "W"; code_start = 0 } ∷ [];
  rstack = [];
  compiling = false;
  awaiting_name = false;
  compile_name = [];
  compile_start = 0;
  ctrl_stack = [];
  out = [];
  out_max = 256;
  hooks = [];
  fault = false;
}

one_word-Body : Body one_word.code 1 0 3
unfolding primitives
one_word-Body = record { last = (instr exit 0, refl, refl); all = all }
  where
    all : (k : ℕ) → 0 ≤ k → k < 3 → InstrAt one_word.code k (λ i. ArgOk 1 0 3 i.op i.arg)
    all zero lo hi = (instr literal 7, refl, tt)
    all (suc zero) lo hi = (instr call_primitive 4, refl, omega arith)
    all (suc (suc zero)) lo hi = (instr exit 0, refl, tt)
    all (suc (suc (suc k))) lo hi = absurd (omega arith)

one_word-Ip : Ip one_word 3 0 0
one_word-Ip = record {
  start = 0;
  end = 3;
  body = one_word-Body;
  from_start = omega arith;
  before_end = omega arith;
  sealed = omega arith;
}

one_word-WordsSafe : WordsSafe one_word 3 0
one_word-WordsSafe zero w e = subst (λ v. Ip one_word 3 0 v.code_start) (eq_of_some e) one_word-Ip
one_word-WordsSafe (suc j) w e = cc e

one_word-Runs : Runs one_word 3 0 one_word
one_word-Runs = record {
  steady = record {
    code = refl;
    dict = refl;
    compiling = refl;
    compile_start = refl;
    ctrl_stack = refl;
    dstack = omega arith;
    mem = refl;
    stored = (refl, omega arith, omega arith, omega arith, (omega arith, tt));
    shallow = omega arith;
  };
  returns = tt;
  deep = omega arith;
}

exec_from-OutcomeOk_example : OutcomeOk one_word 3 0 (exec_from 10 0 0 one_word)
exec_from-OutcomeOk_example =
    exec_from-OutcomeOk one_word 3 0 one_word-WordsSafe 10 0 one_word one_word-Ip one_word-Runs

-- A word with a loop and a branch.
abbrev a_word : List ℕ × ℕ
a_word = (codes ": W BEGIN 1 - DUP 0 = UNTIL IF 7 . THEN ;", 256)

-- Its use, and a word that is never closed.
abbrev some_lines : List (List ℕ × ℕ)
some_lines = (codes "3 3 W", 256) ∷ (codes ": V IF ;", 256) ∷ []

eval_lines-LineOk_example :
    LineOk (eval_lines 100 (init one_word) (a_word ∷ some_lines))
    × Every LineFits (a_word ∷ some_lines)
eval_lines-LineOk_example =
    eval_lines-LineOk 100 a_word some_lines one_word refl
      (omega arith, (omega arith, (omega arith, tt)))
