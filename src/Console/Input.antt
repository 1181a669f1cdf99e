-- ===== src/Console/Input.antt =====
-- kernel/gui/console_input.c, the one-line input of a console. The position and size on screen serve
-- drawing and hit tests only and are left out.
use rave_os.Prelude.{ℕ, ◌+◌, ◌-◌, Bool, true, false, List, ◌==◌, ltb, if◌then◌else◌, set}
use rave_os.Console.Buffer.{shift_left, shift_right, store_string, stored_length}

-- CONSOLE_INPUT_MAX
abbrev pub console_input_max : ℕ
console_input_max = 127

-- `struct console_input`
pub record Input : Type 0 where
  pub text : List ℕ
  pub len : ℕ
  pub cursor : ℕ
  pub focused : Bool

abbrev pub newline : ℕ
newline = 10

abbrev pub backspace : ℕ
backspace = 8

-- The character before the cursor goes.
unfoldable pub erase : Input → Input
unfolding shift_left
erase ci =
    if ltb 0 ci.cursor
    then record ci {
      text = set (shift_left (ci.len - ci.cursor) (ci.cursor - 1) ci.text) (ci.len - 1) 0;
      len = ci.len - 1;
      cursor = ci.cursor - 1;
    }
    else ci

-- A character comes in at the cursor, if there is room.
unfoldable pub insert : Input → ℕ → Input
unfolding shift_right
insert ci c =
    if ltb ci.len console_input_max
    then record ci {
      text =
          set (set (shift_right (ci.len - ci.cursor) ci.cursor ci.text) ci.cursor c) (ci.len + 1) 0;
      len = ci.len + 1;
      cursor = ci.cursor + 1;
    }
    else ci

-- The result is whether Enter was pressed.
unfoldable pub feed_char : Input → ℕ → Input × Bool
unfolding erase insert
feed_char ci c =
    if not_focused
    then (ci, false)
    else if c == newline
    then (ci, true)
    else if c == backspace
    then (erase ci, false)
    else (insert ci c, false)
  where
    not_focused : Bool
    not_focused = if ci.focused then false else true

-- `cursor + delta` for a step to the left (`delta` negative) or to the right, clamped to the text.
unfoldable pub move_left : Input → ℕ → Input
move_left ci n = record ci { cursor = ci.cursor - n }

unfoldable pub move_right : Input → ℕ → Input
move_right ci n = record ci {
  cursor = if ltb ci.len (ci.cursor + n) then ci.len else ci.cursor + n;
}

unfoldable pub set_text : Input → List ℕ → Input
unfolding store_string stored_length
set_text ci src = record ci {
  text = store_string console_input_max 0 src ci.text;
  len = stored_length console_input_max src;
  cursor = stored_length console_input_max src;
}

unfoldable pub clear : Input → Input
clear ci = record ci { len = 0; cursor = 0; text = set ci.text 0 0 }
