-- ===== src/Console/History.antt =====
-- kernel/gui/console_history.c, the command history: a ring of lines. A line is the string in its
-- buffer.
use rave_os.Prelude.{
  ℕ, zero, suc, ◌+◌, ◌-◌, ◌*◌, ◌%◌, Option, none, some, List, [], ◌∷◌, ◌==◌, ltb, if◌then◌else◌,
  set, get_or, take,
}
use rave_os.Console.Input.{console_input_max}

-- CONSOLE_HISTORY_MAX
abbrev pub console_history_max : ℕ
console_history_max = 16

-- `struct console_history`; `browse_offset` is -1 as `none`.
pub record History : Type 0 where
  pub lines : List (List ℕ)
  pub count : ℕ
  pub next : ℕ
  pub browse_offset : Option ℕ

unfoldable pub init : History → History
init h = record h { count = 0; next = 0; browse_offset = none }

abbrev pub push_line : History → List ℕ → History
push_line h line = record h {
  lines = set h.lines h.next (take console_input_max line);
  next = (h.next + 1) % console_history_max;
  count = if ltb h.count console_history_max then h.count + 1 else h.count;
  browse_offset = none;
}

-- An empty line is not remembered.
unfoldable pub push : History → List ℕ → History
push h [] = h
push h (c ∷ line) = push_line h (c ∷ line)

unfoldable pub reset_browse : History → History
reset_browse h = record h { browse_offset = none }

unfoldable pub history_index : History → ℕ → ℕ
history_index h offset = (h.next + console_history_max * 2 - 1 - offset) % console_history_max

-- The line `offset` steps back from the most recent one.
unfoldable pub recalled : History → ℕ → List ℕ
unfolding history_index
recalled h offset = get_or h.lines (history_index h offset) []

abbrev pub browse : History → ℕ → Option (List ℕ) × History
browse h offset = (some (recalled h offset), record h { browse_offset = some offset })

abbrev pub step_back : History → Option ℕ → Option (List ℕ) × History
step_back h none = browse h 0
step_back h (some offset) = if ltb (offset + 1) h.count then browse h (offset + 1) else (none, h)

-- `none` is the result 0, `some` the line in `out` and the result 1.
unfoldable pub prev : History → Option (List ℕ) × History
unfolding recalled
prev h = if h.count == 0 then (none, h) else step_back h h.browse_offset

abbrev pub step_forward : History → Option ℕ → Option (List ℕ) × History
step_forward h none = (none, h)
step_forward h (some zero) = (some [], record h { browse_offset = none })
step_forward h (some (suc offset)) = browse h offset

unfoldable pub next_line : History → Option (List ℕ) × History
unfolding recalled
next_line h = step_forward h h.browse_offset
