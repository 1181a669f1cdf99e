-- ===== src/Console/Typing.antt =====
-- Histories of calls on the input line of a console, kernel/gui/console_input.c.
use rave_os.Prelude.{
  Bool, ℕ, ◌-◌, true, false, List, [], ◌∷◌, ◌==◌, ltb, if◌then◌else◌, arith, Bool-cases, inl, inr,
}
use rave_os.Console.Input.{
  Input, newline, backspace, console_input_max, erase, insert, feed_char, move_left, move_right,
  set_text, clear,
}
use rave_os.Console.Fits.{Fits, erased, inserted, moved, stored, emptied}

-- What the keyboard and the shell do to an input line.
pub data InputCall : Type 0 where
  typed left right : ℕ → InputCall
  set_to : List ℕ → InputCall
  cleared : InputCall

unfoldable pub handle : Input → InputCall → Input
unfolding feed_char move_left move_right set_text clear
handle ci (typed c) = (feed_char ci c).0
handle ci (left n) = move_left ci n
handle ci (right n) = move_right ci n
handle ci (set_to src) = set_text ci src
handle ci cleared = clear ci

unfoldable pub handle_all : Input → List InputCall → Input
unfolding handle
handle_all ci [] = ci
handle_all ci (call ∷ calls) = handle_all (handle ci call) calls

abbrev pub InputFits : Input → Type 0
InputFits ci = Fits console_input_max ci.text ci.len ci.cursor

erase-InputFits : (ci : Input) → InputFits ci → InputFits (erase ci)
unfolding erase
erase-InputFits ci f = elim (Bool-cases (ltb 0 ci.cursor)) [
  | inl e ↦ rw e (erased console_input_max ci.len ci.cursor ci.text f)
  | inr e ↦ rw e f
]

insert-InputFits : (ci : Input) (c : ℕ) → InputFits ci → InputFits (insert ci c)
unfolding insert
insert-InputFits ci c f = elim (Bool-cases (ltb ci.len console_input_max)) [
  | inl e ↦ rw e (inserted console_input_max ci.len ci.cursor c ci.text f (ground arith))
  | inr e ↦ rw e f
]

feed_char-InputFits : (ci : Input) (c : ℕ) → InputFits ci → InputFits (feed_char ci c).0
unfolding feed_char
feed_char-InputFits ci c f = split ci.focused (c == newline) (c == backspace)
  where
    split :
        (focused enter back : Bool)
        → (let r : Input × Bool =
              if (if focused then false else true)
              then (ci, false)
              else if enter
              then (ci, true)
              else if back
              then (erase ci, false)
              else (insert ci c, false) in
            InputFits r.0)
    split false enter back = f
    split true true back = f
    split true false true = erase-InputFits ci f
    split true false false = insert-InputFits ci c f

handle-InputFits : (call : InputCall) (ci : Input) → InputFits ci → InputFits (handle ci call)
unfolding handle move_left move_right set_text clear
handle-InputFits (typed c) ci f = feed_char-InputFits ci c f
handle-InputFits (left n) ci f = moved (ci.cursor - n) f (omega (arith, f.cursor_le))
handle-InputFits (right n) ci f = moved _ f (ground arith)
handle-InputFits (set_to src) ci f = stored console_input_max src ci.text f.bytes
handle-InputFits cleared ci f = emptied console_input_max ci.text f.bytes

-- Whatever calls are made on an input line whose text is NUL-terminated in its 128 bytes with the
-- cursor in the text, this is so afterwards.
pub handle_all-InputFits :
    (calls : List InputCall) (ci : Input) → InputFits ci → InputFits (handle_all ci calls)
unfolding handle_all
handle_all-InputFits [] ci f = f
handle_all-InputFits (call ∷ calls) ci f =
    handle_all-InputFits calls (handle ci call) (handle-InputFits call ci f)
