-- ===== src/Console/TextField.antt =====
-- kernel/gui/textfield.c, a field that is typed at its end.
use rave_os.Prelude.{ℕ, ◌+◌, ◌-◌, Bool, List, ◌==◌, ltb, if◌then◌else◌, set, not}
use rave_os.Console.Input.{newline, backspace}

-- TEXTFIELD_MAX
abbrev pub textfield_max : ℕ
textfield_max = 24

-- `struct textfield` without its place on screen.
pub record TextField : Type 0 where
  pub text : List ℕ
  pub len : ℕ
  pub focused : Bool

unfoldable pub feed_char : TextField → ℕ → TextField
feed_char tf c =
    if not tf.focused
    then tf
    else if c == backspace
    then (if ltb 0 tf.len
        then record tf { text = set tf.text (tf.len - 1) 0; len = tf.len - 1 }
        else tf)
    else if c == newline
    then record tf { len = 0; text = set tf.text 0 0 }
    else if ltb tf.len textfield_max
    then record tf { text = set (set tf.text tf.len c) (tf.len + 1) 0; len = tf.len + 1 }
    else tf
