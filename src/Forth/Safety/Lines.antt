-- ===== src/Forth/Safety/Lines.antt =====
-- kernel/forth/forth.c, `forth_eval_line`, and the invariant between lines.
use rave_os.Prelude.{
  ◌≤◌, Every, ℕ, ◌≡◌, refl, false, List, [], ◌∷◌, length, arith, Bool-cases, inl, inr,
}
use rave_os.Forth.Vm.{Vm, has_error, forth_write, init, mem_size}
use rave_os.Forth.Exec.{Outcome, done, crashed, out_of_fuel}
use rave_os.Forth.Eval.{abort, finish, eval_line, tokens_from}
use rave_os.Forth.Safety.Code.{Safe-mono}
use rave_os.Forth.Safety.Fine.{Stored, forth_write-Stored}
use rave_os.Forth.Safety.Valid.{Valid, Quiet, Inv}
use rave_os.Forth.Safety.Immediate.{TokenOk, eval_tokens-TokenOk}
use rave_os.Forth.Safety.Buffers.{LineFits, all-LineFits}

-- A machine between two lines.
pub record Ready (vm : Vm) : Type 0 where
  pub valid : Valid vm
  pub quiet : Quiet vm

abbrev pub LineOk : Outcome → Type 0
LineOk (done vm) = Ready vm
LineOk crashed = ⊥
LineOk out_of_fuel = Unit {0}

cleared-Inv :
    (vm : Vm) (out_max : ℕ)
    → 1 ≤ out_max
    → Ready vm
    → Inv (record vm { error = []; out = []; out_max = out_max })
cleared-Inv vm out_max room r = record {
  valid = record {
    dstack = r.valid.dstack;
    mem = r.valid.mem;
    stored = let s = r.valid.stored in (s.0, room, omega arith, s.3, s.4);
    code = r.valid.code;
    dict = r.valid.dict;
    rstack = r.valid.rstack;
    ctrl_stack = r.valid.ctrl_stack;
    sealed_le = r.valid.sealed_le;
    words = r.valid.words;
  };
  quiet =
      λ _. record { idle = r.quiet.idle; closed = r.quiet.closed; open_code = r.quiet.open_code };
}

abort-Stored : (vm : Vm) → Stored vm → Stored (abort vm)
unfolding abort
abort-Stored vm s =
    let cleared : Vm = record vm {
      dstack = [];
      rstack = [];
      compiling = false;
      awaiting_name = false;
      ctrl_stack = [];
    } in
    forth_write-Stored (forth_write cleared (10 ∷ [])) vm.error
      (forth_write-Stored cleared (10 ∷ []) s)

abort-Ready : (vm : Vm) → Valid vm → Ready (abort vm)
unfolding abort forth_write
abort-Ready vm v = record {
  valid = record {
    dstack = omega arith;
    mem = v.mem;
    stored = abort-Stored vm v.stored;
    code = v.code;
    dict = v.dict;
    rstack = omega arith;
    ctrl_stack = omega arith;
    sealed_le = omega arith;
    words = λ j w e. Safe-mono (λ k lt. refl) (omega arith) v.sealed_le (v.words j w e);
  };
  quiet = record { idle = refl; closed = λ _. refl; open_code = λ e. cc e };
}

finish-LineOk : (o : Outcome) → TokenOk o → LineOk (finish o)
finish-LineOk (done vm) i = elim (Bool-cases (has_error vm)) [
  | inl e ↦ rw e (abort-Ready vm i.valid)
  | inr e ↦ rw e (record { valid = i.valid; quiet = i.quiet e })
]
finish-LineOk crashed x = x
finish-LineOk out_of_fuel x = x

-- A line given to a machine in order.
eval_line-LineOk :
    (fuel : ℕ) (vm : Vm) (line : List ℕ) (out_max : ℕ)
    → 1 ≤ out_max
    → Ready vm
    → LineOk (eval_line fuel vm line out_max)
unfolding eval_line
eval_line-LineOk fuel vm line out_max room r =
    finish-LineOk _
      (eval_tokens-TokenOk fuel (tokens_from [] line) _ (cleared-Inv vm out_max room r))

-- `forth_init` puts a machine in order, whatever its memory held before, but for the room for output,
-- which every line sets.
init-Ready : (vm : Vm) → length vm.mem ≡ mem_size → Ready (record (init vm) { out_max = 1 })
unfolding init
init-Ready vm h = record {
  valid = record {
    dstack = omega arith;
    mem = h;
    stored = (refl, omega arith, omega arith, omega arith, tt);
    code = omega arith;
    dict = omega arith;
    rstack = omega arith;
    ctrl_stack = omega arith;
    sealed_le = omega arith;
    words = λ j w e. cc e;
  };
  quiet = record { idle = refl; closed = λ _. refl; open_code = λ e. cc e };
}

-- Lines submitted one after the other, each with its room for output.
unfoldable pub eval_lines : ℕ → Vm → List (List ℕ × ℕ) → Outcome
eval_lines fuel vm [] = done vm
eval_lines fuel vm (l ∷ ls) = elim (eval_line fuel vm l.0 l.1) [
  | done vm' ↦ eval_lines fuel vm' ls
  | crashed ↦ crashed
  | out_of_fuel ↦ out_of_fuel
]

-- A line and its room for output.
abbrev pub HasRoom : List ℕ × ℕ → Type 0
HasRoom l = 1 ≤ l.1

from_Ready-LineOk :
    (fuel : ℕ) (lines : List (List ℕ × ℕ)) (vm : Vm)
    → Every HasRoom lines
    → Ready vm
    → LineOk (eval_lines fuel vm lines)
unfolding eval_lines
from_Ready-LineOk fuel [] vm room r = r
from_Ready-LineOk fuel (l ∷ ls) vm room r =
    after (eval_line fuel vm l.0 l.1) (eval_line-LineOk fuel vm l.0 l.1 room.0 r)
      (λ vm. from_Ready-LineOk fuel ls vm room.1)
  where
    after :
        (o : Outcome)
        → LineOk o
        → ((vm : Vm) → Ready vm → LineOk (eval_lines fuel vm ls))
        → LineOk (elim o [
          | done vm' ↦ eval_lines fuel vm' ls
          | crashed ↦ crashed
          | out_of_fuel ↦ out_of_fuel
        ])
    after (done vm') x go = go vm' x
    after crashed x go = x
    after out_of_fuel x go = x

-- After `forth_init`, whatever the machine's 64 memory cells and its other fields held, every
-- sequence of one or more lines, with any fuel for each run and room for one character of output or
-- more, either leaves a machine in order or runs out of fuel. No line makes it read, write or jump
-- outside the code, the dictionary, the primitives, the return stack, the memory cells or the output,
-- and in a machine in order every stack and table is within its bounds, the output leaves room for its
-- NUL, the error message has at most 31 characters and the names of words at most 16. Every token that
-- is read from the lines has at most 31 characters.
pub eval_lines-LineOk :
    (fuel : ℕ) (line : List ℕ × ℕ) (lines : List (List ℕ × ℕ)) (vm : Vm)
    → length vm.mem ≡ mem_size
    → Every HasRoom (line ∷ lines)
    → LineOk (eval_lines fuel (init vm) (line ∷ lines)) × Every LineFits (line ∷ lines)
unfolding eval_lines eval_line
eval_lines-LineOk fuel line lines vm h room = (
  from_Ready-LineOk fuel (line ∷ lines) (record (init vm) { out_max = 1 }) room (init-Ready vm h),
  all-LineFits (line ∷ lines),
)
