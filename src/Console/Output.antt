-- ===== src/Console/Output.antt =====
-- kernel/gui/console_output.c, the scrollback of a console: a ring of lines. A line is the string
-- in its buffer.
use rave_os.Prelude.{
  ℕ, zero, suc, ◌+◌, ◌-◌, ◌*◌, ◌/◌, ◌%◌, ◌^◌, List, [], ◌∷◌, ltb, if◌then◌else◌, set, get_or, take,
}

-- CONSOLE_OUTPUT_MAX_LINES
abbrev pub max_lines : ℕ
max_lines = 40

-- CONSOLE_LINE_MAX
abbrev pub line_max : ℕ
line_max = 64

-- `struct console_output` without its place on screen; `height` is its field `h`.
pub record Output : Type 0 where
  pub height : ℕ
  pub lines : List (List ℕ)
  pub line_count : ℕ
  pub next_line : ℕ
  pub generation : ℕ

unfoldable pub init : Output → ℕ → Output
init co h = record co { height = h; line_count = 0; next_line = 0; generation = 0 }

unfoldable pub append_line : Output → List ℕ → Output
append_line co text = record co {
  lines = set co.lines co.next_line (take line_max text);
  next_line = (co.next_line + 1) % max_lines;
  line_count = if ltb co.line_count max_lines then co.line_count + 1 else co.line_count;
  generation = (co.generation + 1) % 2 ^ 32;
}

unfoldable pub clear : Output → Output
clear co = record co { line_count = 0; next_line = 0; generation = (co.generation + 1) % 2 ^ 32 }

-- GLYPH_HEIGHT * CONSOLE_OUTPUT_SCALE + 2
abbrev pub line_height : ℕ
line_height = 9

-- `shown` in `console_output_draw`
unfoldable pub rows_shown : Output → ℕ
rows_shown co =
    let visible_rows = co.height / line_height in
    if ltb co.line_count visible_rows then co.line_count else visible_rows

unfoldable pub ring_index : Output → ℕ → ℕ
ring_index co offset_from_newest =
    (co.next_line + 2 * max_lines - 1 - offset_from_newest) % max_lines

-- The lines that the loop of `console_output_draw` draws, `n` rounds before its end, top first.
unfoldable pub drawn_from : Output → ℕ → List (List ℕ)
unfolding ring_index
drawn_from co zero = []
drawn_from co (suc n) = get_or co.lines (ring_index co n) [] ∷ drawn_from co n

unfoldable pub drawn : Output → List (List ℕ)
unfolding drawn_from rows_shown
drawn co = drawn_from co (rows_shown co)
