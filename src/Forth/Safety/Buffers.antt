-- ===== src/Forth/Safety/Buffers.antt =====
-- kernel/forth/forth.c, `forth_eval_line`: the buffer that each token is read into.
use rave_os.Prelude.{
  length-append, ltb, if_cases, if_both, ◌≤◌, Every, ℕ, List, [], ◌∷◌, length, arith,
}
use rave_os.Forth.Eval.{grow_token, flush, is_blank, tokens_from}

-- A token fits its buffer with its NUL.
abbrev pub TokenFits : List ℕ → Type 0
TokenFits t = length t ≤ 31

grow_token-TokenFits : (cur : List ℕ) (c : ℕ) → TokenFits cur → TokenFits (grow_token cur c)
grow_token-TokenFits cur c h =
    if_cases TokenFits (ltb (length cur) 31)
      (λ room. let longer = length-append cur (c ∷ []) in ground arith) (λ full. h)

flush-TokenFits :
    (cur : List ℕ) (ts : List (List ℕ))
    → TokenFits cur
    → Every TokenFits ts
    → Every TokenFits (flush cur ts)
flush-TokenFits [] ts h k = k
flush-TokenFits (c ∷ cs) ts h k = (h, k)

tokens_from-TokenFits : (cur line : List ℕ) → TokenFits cur → Every TokenFits (tokens_from cur line)
unfolding tokens_from
tokens_from-TokenFits cur [] h = flush-TokenFits cur [] h tt
tokens_from-TokenFits cur (c ∷ cs) h =
    if_both (Every TokenFits) (is_blank c)
      (flush-TokenFits cur (tokens_from [] cs) h (tokens_from-TokenFits [] cs (omega arith)))
      (tokens_from-TokenFits (grow_token cur c) cs (grow_token-TokenFits cur c h))

-- The tokens of each line fit their buffer.
abbrev pub LineFits : List ℕ × ℕ → Type 0
LineFits l = Every TokenFits (tokens_from [] l.0)

pub all-LineFits : (lines : List (List ℕ × ℕ)) → Every LineFits lines
all-LineFits [] = tt
all-LineFits (l ∷ ls) = (tokens_from-TokenFits [] l.0 (omega arith), all-LineFits ls)
