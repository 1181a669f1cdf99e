-- ===== src/Forth/Numbers.antt =====
-- kernel/forth/forth.c: 32-bit cells, printing and reading them, comparing words. An `int32_t` is
-- its bit pattern, a number below 2 ^ 32; arithmetic wraps as the compiled code's does.
use rave_os.Prelude.{
  ℕ, zero, suc, ◌+◌, ◌-◌, ◌*◌, ◌/◌, ◌%◌, ◌^◌, Bool, true, false, Option, none, some, List, [], ◌∷◌,
  ◌==◌, ◌&&◌, ltb, leb, if◌then◌else◌,
}
use mathlib.Core.List.{reverse}

abbrev pub is_negative : ℕ → Bool
is_negative v = leb (2 ^ 31) v

abbrev pub neg32 : ℕ → ℕ
neg32 v = (2 ^ 32 - v) % 2 ^ 32

-- The size of the integer that a cell stands for.
abbrev pub magnitude : ℕ → ℕ
magnitude v = if is_negative v then 2 ^ 32 - v else v

-- Signed `<`: the cells in the order of their integers.
abbrev pub signed_lt : ℕ → ℕ → Bool
signed_lt a b = ltb ((a + 2 ^ 31) % 2 ^ 32) ((b + 2 ^ 31) % 2 ^ 32)

-- Signed `/`, towards zero.
abbrev pub signed_div : ℕ → ℕ → ℕ
signed_div a b =
    let q = magnitude a / magnitude b in
    if is_negative a
    then if is_negative b then q else neg32 q
    else if is_negative b
    then neg32 q
    else q

-- The loop of `format_int` over `uv`, lowest digit first, with room for `n` more digits in `tmp`.
unfoldable pub digits_from : ℕ → ℕ → List ℕ
digits_from zero uv = []
digits_from (suc n) uv =
    let rest = digits_from n (uv / 10) in if uv == 0 then [] else (b'0' + uv % 10) ∷ rest

-- `char tmp[12]`
abbrev pub tmp_size : ℕ
tmp_size = 12

unfoldable pub format_int : ℕ → List ℕ
unfolding digits_from
format_int v =
    let text = reverse (digits_from tmp_size (magnitude v)) in
    if magnitude v == 0 then b'0' ∷ [] else if is_negative v then b'-' ∷ text else text

abbrev pub is_digit : ℕ → Bool
is_digit c = leb b'0' c && leb c b'9'

-- The loop of `parse_int` with `val` read so far.
unfoldable pub parse_digits : ℕ → List ℕ → Option ℕ
parse_digits val [] = some val
parse_digits val (c ∷ cs) =
    let rest = parse_digits ((val * 10 + (c - b'0')) % 2 ^ 32) cs in
    if is_digit c then rest else none

-- The digits must not be empty.
abbrev pub parse_some : List ℕ → Option ℕ
parse_some [] = none
parse_some (c ∷ cs) = parse_digits 0 (c ∷ cs)

abbrev pub negated : Option ℕ → Option ℕ
negated none = none
negated (some v) = some (neg32 v)

unfoldable pub parse_int : List ℕ → Option ℕ
unfolding parse_digits
parse_int [] = none
parse_int (c ∷ cs) = if c == b'-' then negated (parse_some cs) else parse_some (c ∷ cs)

abbrev pub upper : ℕ → ℕ
upper c = if leb b'a' c && leb c b'z' then c - 32 else c

unfoldable pub str_eq_ci : List ℕ → List ℕ → Bool
str_eq_ci [] [] = true
str_eq_ci [] (b ∷ bs) = false
str_eq_ci (a ∷ as') [] = false
str_eq_ci (a ∷ as') (b ∷ bs) =
    let rest = str_eq_ci as' bs in if upper a == upper b then rest else false
