-- ===== src/Console/Buffer.antt =====
-- The loops by which kernel/gui/console_input.c and kernel/gui/editor.c shift their text, and a
-- string laid into a fixed buffer. A buffer is the list of all its bytes.
use rave_os.Prelude.{ℕ, zero, suc, ◌+◌, List, [], ◌∷◌, ◌==◌, if◌then◌else◌, get_or, set}

-- `for (i = from; i < from + n; i++) text[i] = text[i + 1];`
unfoldable pub shift_left : ℕ → ℕ → List ℕ → List ℕ
shift_left zero from text = text
shift_left (suc n) from text = shift_left n (from + 1) (set text from (get_or text (from + 1) 0))

-- `for (i = to + n; i > to; i--) text[i] = text[i - 1];`
unfoldable pub shift_right : ℕ → ℕ → List ℕ → List ℕ
shift_right zero to text = text
shift_right (suc n) to text = shift_right n to (set text (to + suc n) (get_or text (to + n) 0))

-- `while (text[i] && i < room) { dst[i] = text[i]; i++; } dst[i] = 0;` from index `i` with `n`
-- characters of room: the buffer.
unfoldable pub store_string : ℕ → ℕ → List ℕ → List ℕ → List ℕ
store_string zero i src dst = set dst i 0
store_string (suc n) i [] dst = set dst i 0
store_string (suc n) i (c ∷ src) dst =
    let rest = store_string n (i + 1) src (set dst i c) in if c == 0 then set dst i 0 else rest

-- The number of characters that this loop copies.
unfoldable pub stored_length : ℕ → List ℕ → ℕ
stored_length zero src = 0
stored_length (suc n) [] = 0
stored_length (suc n) (c ∷ src) = let rest = stored_length n src in if c == 0 then 0 else rest + 1
