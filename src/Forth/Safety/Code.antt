-- ===== src/Forth/Safety/Code.antt =====
-- Compiled code that is safe to run: every word's body ends in an exit, and no branch leaves it.
use rave_os.Prelude.{
  eq_of_some, sym, ap, subst, ℕ, ◌+◌, ◌-◌, ◌≤◌, ◌<◌, ◌≡◌, ◌∙◌, List, some, get_elem?, length, arith,
}
use native.Mathlib.Decide.{ℕ_discrete}
use rave_os.Forth.Vm.{
  Instr, Op, literal, call_primitive, call_word, exit, branch, branch_if_zero, call_yield,
}
use rave_os.Forth.Words.{primitives}

-- An argument that is good in a body from `s` to `e`, with `words` words in the dictionary.
abbrev pub ArgOk : ℕ → ℕ → ℕ → Op → ℕ → Type 0
ArgOk words s e literal a = Unit {0}
ArgOk words s e call_primitive a = a < length primitives
ArgOk words s e call_word a = a < words
ArgOk words s e exit a = Unit {0}
ArgOk words s e branch a = (s ≤ a) × (a < e)
ArgOk words s e branch_if_zero a = (s ≤ a) × (a < e)
ArgOk words s e call_yield a = Unit {0}

abbrev pub InstrAt : List Instr → ℕ → (Instr → Type 0) → Type 0
InstrAt code k P = (i : Instr) × (get_elem? code k ≡ some i) × P i

-- The body of a word: the code from `s` up to `e`, whose last instruction is an exit.
pub record Body (code : List Instr) (words s e : ℕ) : Type 0 where
  pub last : InstrAt code (e - 1) (λ i. i.op ≡ exit)
  pub all : (k : ℕ) → s ≤ k → k < e → InstrAt code k (λ i. ArgOk words s e i.op i.arg)

-- An address inside some body below `limit`.
pub record Safe (code : List Instr) (words limit k : ℕ) : Type 0 where
  pub start : ℕ
  pub end : ℕ
  pub body : Body code words start end
  pub from_start : start ≤ k
  pub before_end : k < end
  pub sealed : end ≤ limit

ArgOk-mono :
    {words words' : ℕ} (s e : ℕ) (op : Op) (a : ℕ)
    → words ≤ words'
    → ArgOk words s e op a
    → ArgOk words' s e op a
ArgOk-mono s e literal a h x = x
ArgOk-mono s e call_primitive a h x = x
ArgOk-mono s e call_word a h x = omega arith
ArgOk-mono s e exit a h x = x
ArgOk-mono s e branch a h x = x
ArgOk-mono s e branch_if_zero a h x = x
ArgOk-mono s e call_yield a h x = x

-- Safety outlives every change of the code from `limit` on and every new word.
pub Safe-mono :
    {code code' : List Instr} {words words' limit limit' k : ℕ}
    → ((j : ℕ) → j < limit → get_elem? code' j ≡ get_elem? code j)
    → words ≤ words'
    → limit ≤ limit'
    → Safe code words limit k
    → Safe code' words' limit' k
Safe-mono {code} {code'} {words} {words'} {limit} {limit'} {k} same more longer x = record {
  start = x.start;
  end = x.end;
  body = record {
    last = (l.0, same (x.end - 1) (omega arith) ∙ l.1, l.2);
    all = λ j lo hi.
        let a = x.body.all j lo hi in
        (a.0, same j (omega arith) ∙ a.1, ArgOk-mono x.start x.end a.0.op a.0.arg more a.2);
  };
  from_start = x.from_start;
  before_end = x.before_end;
  sealed = omega arith;
}
  where
    l : InstrAt code (x.end - 1) (λ i. i.op ≡ exit)
    l = x.body.last

-- A branch inside a body stays inside it.
pub Safe-target :
    {code : List Instr} {words limit k : ℕ} (x : Safe code words limit k) (t : ℕ)
    → x.start ≤ t
    → t < x.end
    → Safe code words limit t
Safe-target x t lo hi = record {
  start = x.start;
  end = x.end;
  body = x.body;
  from_start = lo;
  before_end = hi;
  sealed = x.sealed;
}

-- After an instruction that is no exit the body goes on.
pub Safe-next :
    {code : List Instr} {words limit k : ℕ} (x : Safe code words limit k) {i : Instr}
    → get_elem? code k ≡ some i
    → (i.op ≡ exit → ⊥)
    → Safe code words limit (k + 1)
Safe-next {code} {k = k} x {i} at other =
    Safe-target x (k + 1) (omega (arith, x.from_start)) (more (ℕ_discrete (k + 1) x.end))
  where
    more : Dec (k + 1 ≡ x.end) → k + 1 < x.end
    more (yes e) = absurd (other (exits e))
      where
        exits : k + 1 ≡ x.end → i.op ≡ exit
        exits e =
            let same : x.end - 1 ≡ k = omega arith in
            let at_end = subst (λ j. get_elem? code j ≡ some x.body.last.0) same x.body.last.1 in
            ap (λ (j : Instr). j.op) (eq_of_some (sym at ∙ at_end)) ∙ x.body.last.2
    more (no n) = omega (arith, x.before_end)
