-- ===== src/Console/Tests.antt =====
-- Runs of the console widgets.
use rave_os.Prelude.{◌/◌, min, codes, ◌≡◌, [], ◌∷◌, refl, true, none, replicate, arith}
use rave_os.Console.Input.{Input, backspace}
use rave_os.Console.Editor.{Editor, feed_char}
use rave_os.Console.History.{History, push, prev}
use rave_os.Console.Output.{Output, append_line, drawn}
use rave_os.Console.Scrollback.{Keeps, upwards, drawn-append_line}
use rave_os.Console.Typing.{InputFits, handle_all-InputFits}
use rave_os.Console.Editing.{EditorFits, handle_all-EditorFits}
use rave_os.Console.Undo.{SameText, feed_char-backspace}
use rave_os.Console.Recall.{Holds, remember, shown, older, push-Holds, prev-Holds}
use rave_os.Console.Typing as Typing
use rave_os.Console.Editing as Editing

abbrev empty_editor : Editor
empty_editor = record { buf = replicate 513 0; len = 0; cursor = 0; focused = true }

abbrev empty_input : Input
empty_input = record { text = replicate 128 0; len = 0; cursor = 0; focused = true }

abbrev no_lines : History
no_lines = record { lines = replicate 16 []; count = 0; next = 0; browse_offset = none }

empty_editor-EditorFits : EditorFits empty_editor
empty_editor-EditorFits = record {
  bytes = refl;
  room = omega arith;
  cursor_le = omega arith;
  ends = refl;
}

empty_input-InputFits : InputFits empty_input
empty_input-InputFits = record {
  bytes = refl;
  room = omega arith;
  cursor_le = omega arith;
  ends = refl;
}

no_lines-Holds : Holds no_lines []
no_lines-Holds = record {
  slots = refl;
  next_lt = omega arith;
  count = refl;
  count_le = omega arith;
  lines = λ k lt. absurd (omega arith);
}

feed_char-backspace_example :
    SameText (feed_char (feed_char empty_editor 65) backspace) empty_editor
feed_char-backspace_example =
    feed_char-backspace empty_editor 65 empty_editor-EditorFits refl (omega arith) refl

handle_all-EditorFits_example : EditorFits (
    Editing.handle_all empty_editor
      (Editing.loaded (codes "ab") ∷ Editing.focus true ∷ Editing.typed 65 ∷ Editing.up ∷ []))
handle_all-EditorFits_example =
    handle_all-EditorFits
      (Editing.loaded (codes "ab") ∷ Editing.focus true ∷ Editing.typed 65 ∷ Editing.up ∷ [])
      empty_editor empty_editor-EditorFits

handle_all-InputFits_example :
    InputFits
      (Typing.handle_all empty_input (Typing.typed 65 ∷ Typing.left 1 ∷ Typing.typed 66 ∷ []))
handle_all-InputFits_example =
    handle_all-InputFits (Typing.typed 65 ∷ Typing.left 1 ∷ Typing.typed 66 ∷ []) empty_input
      empty_input-InputFits

push-Holds_example : Holds (push no_lines (76 ∷ [])) (remember (76 ∷ []) [])
push-Holds_example = push-Holds no_lines (76 ∷ []) [] no_lines-Holds

prev-Holds_example :
    prev (push no_lines (76 ∷ []))
    ≡ shown (push no_lines (76 ∷ [])) (remember (76 ∷ []) []) (older (remember (76 ∷ []) []) none)
unfolding push
prev-Holds_example =
    prev-Holds (push no_lines (76 ∷ [])) (remember (76 ∷ []) [])
      (push-Holds no_lines (76 ∷ []) [] no_lines-Holds)

abbrev no_output : Output
no_output = record {
  height = 100;
  lines = replicate 40 [];
  line_count = 0;
  next_line = 0;
  generation = 0;
}

no_output-Keeps : Keeps no_output []
no_output-Keeps = record {
  slots = refl;
  next_lt = omega arith;
  count = refl;
  count_le = omega arith;
  lines = λ k lt. absurd (omega arith);
}

drawn-append_line_example :
    drawn (append_line no_output (79 ∷ 75 ∷ []))
    ≡ upwards (min 1 (no_output.height / 9)) ((79 ∷ 75 ∷ []) ∷ [])
drawn-append_line_example = drawn-append_line no_output (79 ∷ 75 ∷ []) [] no_output-Keeps
