-- ===== src/Console/Editor.antt =====
-- kernel/gui/editor.c, the multi-line text buffer. The position and size on screen serve drawing and
-- hit tests only and are left out.
use rave_os.Prelude.{
  ℕ, zero, suc, ◌+◌, ◌-◌, Bool, false, List, ◌++◌, ◌==◌, ltb, leb, if◌then◌else◌, set, get_or, take,
  drop, not,
}
use rave_os.Console.Buffer.{shift_left, shift_right}
use rave_os.Console.Input.{newline, backspace}

-- EDITOR_BUF_SIZE
abbrev pub buf_size : ℕ
buf_size = 512

-- `struct editor`
pub record Editor : Type 0 where
  pub buf : List ℕ
  pub len : ℕ
  pub cursor : ℕ
  pub focused : Bool

unfoldable pub set_text : Editor → List ℕ → ℕ → Editor
set_text ed text size =
    let size' = if ltb buf_size size then buf_size else size in
    record {
      buf = set (take size' text ++ drop size' ed.buf) size' 0;
      len = size';
      cursor = size';
      focused = false;
    }

unfoldable pub clear : Editor → Editor
clear ed = record { buf = set ed.buf 0 0; len = 0; cursor = 0; focused = false }

unfoldable pub erase : Editor → Editor
unfolding shift_left
erase ed =
    if ltb 0 ed.cursor
    then record ed {
      buf = set (shift_left (ed.len - ed.cursor) (ed.cursor - 1) ed.buf) (ed.len - 1) 0;
      len = ed.len - 1;
      cursor = ed.cursor - 1;
    }
    else ed

unfoldable pub insert : Editor → ℕ → Editor
unfolding shift_right
insert ed c =
    if ltb ed.len buf_size
    then record ed {
      buf =
          set (set (shift_right (ed.len - ed.cursor) ed.cursor ed.buf) ed.cursor c) (ed.len + 1) 0;
      len = ed.len + 1;
      cursor = ed.cursor + 1;
    }
    else ed

unfoldable pub feed_char : Editor → ℕ → Editor
unfolding erase insert
feed_char ed c = if not ed.focused then ed else if c == backspace then erase ed else insert ed c

-- `editor_move_cursor` by `n` to the left or to the right.
unfoldable pub move_left : Editor → ℕ → Editor
move_left ed n = record ed { cursor = ed.cursor - n }

unfoldable pub move_right : Editor → ℕ → Editor
move_right ed n = record ed {
  cursor = if ltb ed.len (ed.cursor + n) then ed.len else ed.cursor + n;
}

unfoldable pub line_start : List ℕ → ℕ → ℕ
line_start buf zero = 0
line_start buf (suc off) =
    let before = line_start buf off in if get_or buf off 0 == newline then suc off else before

-- The loop of `editor_line_end` from `off`, with `n` characters of text from there on.
unfoldable pub line_end_from : List ℕ → ℕ → ℕ → ℕ
line_end_from buf zero off = off
line_end_from buf (suc n) off =
    let after = line_end_from buf n (off + 1) in if get_or buf off 0 == newline then off else after

unfoldable pub line_end : Editor → ℕ → ℕ
unfolding line_end_from
line_end ed off = line_end_from ed.buf (ed.len - off) off

-- The cursor at column `col` of the line at `target_start`, or at that line's end.
unfoldable pub land : Editor → ℕ → ℕ → Editor
unfolding line_end
land ed target_start col = record ed {
  cursor =
      let target_end = line_end ed target_start in
      if ltb target_end (target_start + col) then target_end else target_start + col;
}

unfoldable pub move_up : Editor → Editor
unfolding line_start land
move_up ed =
    let start = line_start ed.buf ed.cursor in
    if start == 0 then ed else land ed (line_start ed.buf (start - 1)) (ed.cursor - start)

unfoldable pub move_down : Editor → Editor
unfolding line_start line_end land
move_down ed =
    let start = line_start ed.buf ed.cursor in
    let end = line_end ed ed.cursor in
    if end == ed.len then ed else land ed (end + 1) (ed.cursor - start)

unfoldable pub move_home : Editor → Editor
unfolding line_start
move_home ed = record ed { cursor = line_start ed.buf ed.cursor }

unfoldable pub move_end : Editor → Editor
unfolding line_end
move_end ed = record ed { cursor = line_end ed ed.cursor }

unfoldable pub delete_forward : Editor → Editor
unfolding shift_left
delete_forward ed = if leb ed.len ed.cursor then ed else record ed {
  buf = set (shift_left (ed.len - 1 - ed.cursor) ed.cursor ed.buf) (ed.len - 1) 0;
  len = ed.len - 1;
}
