-- ===== src/Console/Editing.antt =====
-- Histories of calls on the editor's buffer, kernel/gui/editor.c.
use rave_os.Prelude.{
  length-drop, length-take, ◌∙◌, length-append, drop, ◌++◌, take, length, not, drop, Bool, ℕ, zero,
  suc, ◌+◌, ◌-◌, ◌≤◌, true, false, List, [], ◌∷◌, ◌==◌, ltb, leb, if◌then◌else◌, get_or, arith,
  Bool-cases, inl, inr,
}
use rave_os.Console.Input.{newline, backspace}
use rave_os.Console.Editor.{
  set_text, Editor, buf_size, clear, erase, insert, feed_char, move_left, move_right, line_start,
  line_end_from, line_end, land, move_up, move_down, move_home, move_end, delete_forward,
}
use rave_os.Console.Fits.{put_end, Fits, erased, erased_forward, inserted, moved, emptied}

-- What the kernel does to the editor: the calls of editor.h, a text being given with its length, and the
-- focus, which is set directly.
pub data EditorCall : Type 0 where
  typed left right : ℕ → EditorCall
  up down home end deleted cleared : EditorCall
  loaded : List ℕ → EditorCall
  focus : Bool → EditorCall

unfoldable pub handle : Editor → EditorCall → Editor
unfolding set_text feed_char move_left move_right move_up move_down move_home move_end
    delete_forward clear
handle ed (typed c) = feed_char ed c
handle ed (left n) = move_left ed n
handle ed (right n) = move_right ed n
handle ed up = move_up ed
handle ed down = move_down ed
handle ed home = move_home ed
handle ed end = move_end ed
handle ed deleted = delete_forward ed
handle ed cleared = clear ed
handle ed (loaded text) = set_text ed text (length text)
handle ed (focus on) = record ed { focused = on }

unfoldable pub handle_all : Editor → List EditorCall → Editor
unfolding handle
handle_all ed [] = ed
handle_all ed (call ∷ calls) = handle_all (handle ed call) calls

abbrev pub EditorFits : Editor → Type 0
EditorFits ed = Fits buf_size ed.buf ed.len ed.cursor

line_start_le : (buf : List ℕ) (off : ℕ) → line_start buf off ≤ off
unfolding line_start
line_start_le buf zero = omega arith
line_start_le buf (suc off) = elim (Bool-cases (get_or buf off 0 == newline)) [
  | inl e ↦ rw e (omega arith)
  | inr e ↦ rw e (omega (arith, line_start_le buf off))
]

line_end_from_le : (buf : List ℕ) (n off : ℕ) → line_end_from buf n off ≤ off + n
unfolding line_end_from
line_end_from_le buf zero off = omega arith
line_end_from_le buf (suc n) off = elim (Bool-cases (get_or buf off 0 == newline)) [
  | inl e ↦ rw e (omega arith)
  | inr e ↦ rw e (omega (arith, line_end_from_le buf n (off + 1)))
]

line_end_le : (ed : Editor) (off : ℕ) → off ≤ ed.len → line_end ed off ≤ ed.len
unfolding line_end
line_end_le ed off h = omega (arith, line_end_from_le ed.buf (ed.len - off) off)

land-EditorFits :
    (ed : Editor) (target col : ℕ)
    → target ≤ ed.len
    → EditorFits ed
    → EditorFits (land ed target col)
unfolding land
land-EditorFits ed target col h f = moved _ f (ground (arith, line_end_le ed target h))

erase-EditorFits : (ed : Editor) → EditorFits ed → EditorFits (erase ed)
unfolding erase
erase-EditorFits ed f = elim (Bool-cases (ltb 0 ed.cursor)) [
  | inl e ↦ rw e (erased buf_size ed.len ed.cursor ed.buf f)
  | inr e ↦ rw e f
]

insert-EditorFits : (ed : Editor) (c : ℕ) → EditorFits ed → EditorFits (insert ed c)
unfolding insert
insert-EditorFits ed c f = elim (Bool-cases (ltb ed.len buf_size)) [
  | inl e ↦ rw e (inserted buf_size ed.len ed.cursor c ed.buf f (ground arith))
  | inr e ↦ rw e f
]

feed_char-EditorFits : (ed : Editor) (c : ℕ) → EditorFits ed → EditorFits (feed_char ed c)
unfolding feed_char
feed_char-EditorFits ed c f = split ed.focused (c == backspace)
  where
    split :
        (focused back : Bool)
        → EditorFits (if not focused then ed else if back then erase ed else insert ed c)
    split false back = f
    split true true = erase-EditorFits ed f
    split true false = insert-EditorFits ed c f

move_up-EditorFits : (ed : Editor) → EditorFits ed → EditorFits (move_up ed)
unfolding move_up
move_up-EditorFits ed f = elim (Bool-cases (line_start ed.buf ed.cursor == 0)) [
  | inl e ↦ rw e f
  | inr e ↦ rw e (land-EditorFits ed _ _ target f)
]
  where
    target : line_start ed.buf (line_start ed.buf ed.cursor - 1) ≤ ed.len
    target = omega (
      arith,
      line_start_le ed.buf ed.cursor,
      line_start_le ed.buf (line_start ed.buf ed.cursor - 1),
      f.cursor_le,
    )

move_down-EditorFits : (ed : Editor) → EditorFits ed → EditorFits (move_down ed)
unfolding move_down
move_down-EditorFits ed f = elim (Bool-cases (line_end ed ed.cursor == ed.len)) [
  | inl e ↦ rw e f
  | inr e ↦ rw e (land-EditorFits ed _ _ (ground (arith, line_end_le ed ed.cursor f.cursor_le)) f)
]

delete_forward-EditorFits : (ed : Editor) → EditorFits ed → EditorFits (delete_forward ed)
unfolding delete_forward
delete_forward-EditorFits ed f = elim (Bool-cases (leb ed.len ed.cursor)) [
  | inl e ↦ rw e f
  | inr e ↦ rw e (erased_forward buf_size ed.len ed.cursor ed.buf f (ground arith))
]

-- What is loaded is cut to the buffer and gets its NUL.
set_text-EditorFits :
    (ed : Editor) (text : List ℕ) → EditorFits ed → EditorFits (set_text ed text (length text))
unfolding set_text
set_text-EditorFits ed text f =
    let size = if ltb buf_size (length text) then buf_size else length text in
    let fits : size ≤ buf_size = ground arith in
    let given : size ≤ length text = ground arith in
    put_end buf_size size size (take size text ++ drop size ed.buf)
      (length-append (take size text) (drop size ed.buf)
        ∙ omega (arith, length-take size text, length-drop size ed.buf, f.bytes))
      fits (omega arith)

handle-EditorFits : (call : EditorCall) (ed : Editor) → EditorFits ed → EditorFits (handle ed call)
unfolding handle set_text move_left move_right move_home move_end clear
handle-EditorFits (typed c) ed f = feed_char-EditorFits ed c f
handle-EditorFits (left n) ed f = moved _ f (omega (arith, f.cursor_le))
handle-EditorFits (right n) ed f = moved _ f (ground arith)
handle-EditorFits up ed f = move_up-EditorFits ed f
handle-EditorFits down ed f = move_down-EditorFits ed f
handle-EditorFits home ed f = moved _ f (omega (arith, line_start_le ed.buf ed.cursor, f.cursor_le))
handle-EditorFits end ed f = moved _ f (line_end_le ed ed.cursor f.cursor_le)
handle-EditorFits deleted ed f = delete_forward-EditorFits ed f
handle-EditorFits cleared ed f = emptied buf_size ed.buf f.bytes
handle-EditorFits (loaded text) ed f = set_text-EditorFits ed text f
handle-EditorFits (focus on) ed f = f

-- Whatever sequence of calls, loading a text of any length among them, is made on an editor whose text is NUL-terminated in its 513 bytes with the cursor
-- in the text, this is so afterwards.
pub handle_all-EditorFits :
    (calls : List EditorCall) (ed : Editor) → EditorFits ed → EditorFits (handle_all ed calls)
unfolding handle_all
handle_all-EditorFits [] ed f = f
handle_all-EditorFits (call ∷ calls) ed f =
    handle_all-EditorFits calls (handle ed call) (handle-EditorFits call ed f)
