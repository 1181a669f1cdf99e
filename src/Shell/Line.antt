-- ===== src/Shell/Line.antt =====
-- kernel/gui/shell.c: reading the words of a line. A C string is the list of its characters; a read
-- at its end gives the NUL.
use rave_os.Prelude.{
  ℕ, zero, suc, ◌+◌, ◌-◌, ◌/◌, ◌%◌, Bool, false, List, [], ◌∷◌, ◌++◌, ◌==◌, leb, ◌&&◌, ◌||◌,
  if◌then◌else◌, take, drop, length,
}
use rave_os.Fs.Names.{char_at, rest_of}

abbrev pub space : ℕ
space = b' '

-- `shell_append`: what `dst` holds afterwards, when it held `dst` with the cursor at its end.
unfoldable pub append : ℕ → List ℕ → List ℕ → List ℕ
append cap dst src = if leb cap 0 then dst else dst ++ take (cap - 1 - length dst) src

-- The digits of `v`, the last first in `tmp`; `fuel` is the room of `tmp`.
unfoldable pub digits_from : ℕ → ℕ → List ℕ → List ℕ
digits_from zero v out = out
digits_from (suc fuel) v out =
    let rest = digits_from fuel (v / 10) ((b'0' + v % 10) ∷ out) in if v == 0 then out else rest

-- `shell_format_uint`
unfoldable pub format_uint : ℕ → List ℕ
unfolding digits_from
format_uint v = if v == 0 then b'0' ∷ [] else digits_from 12 v []

abbrev pub lower : ℕ → ℕ
lower c = if leb b'A' c && leb c b'Z' then c + 32 else c

abbrev pub upper : ℕ → ℕ
upper c = if leb b'a' c && leb c b'z' then c - 32 else c

-- `shell_token_is`
unfoldable pub token_is : List ℕ → List ℕ → Bool
token_is line [] = char_at line == 0 || char_at line == space
token_is line (w ∷ word) =
    let rest = token_is (rest_of line) word in if lower (char_at line) == w then rest else false

unfoldable pub skip_spaces : List ℕ → List ℕ
skip_spaces [] = []
skip_spaces (c ∷ cs) = let rest = skip_spaces cs in if c == space then rest else c ∷ cs

-- `shell_arg`
unfoldable pub arg_of : List ℕ → List ℕ → List ℕ
unfolding skip_spaces
arg_of line cmd_word = skip_spaces (drop (length cmd_word) line)

-- Up to `room` characters before a space, and what follows them.
unfoldable pub word_from : ℕ → List ℕ → List ℕ × List ℕ
word_from zero line = ([], line)
word_from (suc room) [] = ([], [])
word_from (suc room) (c ∷ cs) =
    let rest = word_from room cs in if c == space then ([], c ∷ cs) else (c ∷ rest.0, rest.1)

-- `shell_first_word`
unfoldable pub first_word : ℕ → List ℕ → List ℕ
unfolding word_from
first_word cap line = (word_from (cap - 1) line).0

-- `shell_two_args`
unfoldable pub two_args : ℕ → List ℕ → List ℕ × List ℕ
unfolding word_from skip_spaces
two_args first_cap arg = let word = word_from (first_cap - 1) arg in (word.0, skip_spaces word.1)
