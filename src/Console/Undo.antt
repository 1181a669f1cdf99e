-- ===== src/Console/Undo.antt =====
-- kernel/gui/editor.c: a typed character and the backspace after it.
use rave_os.Prelude.{
  get_or-set_self, get_or-set_ne, Bool-cases, length-set, inl, inr, length, ◌⊎◌, ℕ, zero, suc, ◌+◌,
  ◌-◌, ◌≤◌, ◌<◌, ◌≡◌, ◌≢◌, ◌∙◌, refl, true, false, List, ◌==◌, ltb, set, get_or, arith,
}
use rave_os.Console.Buffer.{shift_left, shift_right}
use rave_os.Console.Fits.{length-shift_right}
use rave_os.Console.Editor.{Editor, buf_size, erase, insert, feed_char}
use rave_os.Console.Editing.{EditorFits}
use rave_os.Console.Input.{backspace}
use native.Mathlib.Decide.{ℕ_discrete}

-- What a shift to the right leaves where it was, and what it moves.
shift_right-kept :
    (n to k : ℕ) (text : List ℕ)
    → (k ≤ to) ⊎ (to + n < k)
    → get_or (shift_right n to text) k 0 ≡ get_or text k 0
unfolding shift_right
shift_right-kept zero to k text h = refl
shift_right-kept (suc n) to k text h =
    shift_right-kept n to k (set text (to + suc n) (get_or text (to + n) 0)) (weaker h)
    ∙ get_or-set_ne text (to + suc n) k _ 0 (apart h)
  where
    weaker : (k ≤ to) ⊎ (to + suc n < k) → (k ≤ to) ⊎ (to + n < k)
    weaker (inl x) = inl x
    weaker (inr x) = inr (omega arith)

    apart : (k ≤ to) ⊎ (to + suc n < k) → k ≢ to + suc n
    apart (inl x) = omega arith
    apart (inr x) = omega arith

shift_right-moved :
    (n to k : ℕ) (text : List ℕ)
    → to + n < length text
    → to ≤ k
    → k < to + n
    → get_or (shift_right n to text) (k + 1) 0 ≡ get_or text k 0
unfolding shift_right
shift_right-moved zero to k text b lo hi = absurd (omega arith)
shift_right-moved (suc n) to k text b lo hi = elim (ℕ_discrete k (to + n)) [
  | yes e ↦
      shift_right-kept n to (k + 1) text' (inr (omega arith))
      ∙ get_or-set_self text (to + suc n) (k + 1) _ 0 (omega arith) b
      ∙ rw e refl
  | no ne ↦
      shift_right-moved n to k text'
        (omega (arith, length-set text (to + suc n) (get_or text (to + n) 0))) lo
        (omega (arith, ne))
      ∙ get_or-set_ne text (to + suc n) k _ 0 (omega arith)
]
  where
    text' : List ℕ
    text' = set text (to + suc n) (get_or text (to + n) 0)

shift_left-kept :
    (n from k : ℕ) (text : List ℕ)
    → k < from
    → get_or (shift_left n from text) k 0 ≡ get_or text k 0
unfolding shift_left
shift_left-kept zero from k text h = refl
shift_left-kept (suc n) from k text h =
    shift_left-kept n (from + 1) k (set text from (get_or text (from + 1) 0)) (omega arith)
    ∙ get_or-set_ne text from k _ 0 (omega arith)

shift_left-moved :
    (n from k : ℕ) (text : List ℕ)
    → from + n < length text
    → from ≤ k
    → k < from + n
    → get_or (shift_left n from text) k 0 ≡ get_or text (k + 1) 0
unfolding shift_left
shift_left-moved zero from k text b lo hi = absurd (omega arith)
shift_left-moved (suc n) from k text b lo hi = elim (ℕ_discrete k from) [
  | yes e ↦
      shift_left-kept n (from + 1) k text' (omega arith)
      ∙ get_or-set_self text from k _ 0 e (omega arith)
      ∙ rw e refl
  | no ne ↦
      shift_left-moved n (from + 1) k text'
        (omega (arith, length-set text from (get_or text (from + 1) 0))) (omega (arith, ne))
        (omega arith)
      ∙ get_or-set_ne text from (k + 1) _ 0 (omega arith)
]
  where
    text' : List ℕ
    text' = set text from (get_or text (from + 1) 0)

-- The same text, cursor and focus, whatever is in the buffer after the text.
pub record SameText (a b : Editor) : Type 0 where
  pub len : a.len ≡ b.len
  pub cursor : a.cursor ≡ b.cursor
  pub focused : a.focused ≡ b.focused
  pub text : (k : ℕ) → k < b.len → get_or a.buf k 0 ≡ get_or b.buf k 0

-- A character put in at the cursor and taken out again.
restored :
    (m n len cursor from last c k : ℕ) (buf : List ℕ)
    → cursor + m ≡ len
    → n ≡ m
    → from ≡ cursor
    → last ≡ len
    → len + 1 < length buf
    → k < len
    → get_or
        (set (shift_left n from (set (set (shift_right m cursor buf) cursor c) (len + 1) 0)) last 0)
        k
        0
      ≡ get_or buf k 0
restored m n len cursor from last c k buf em en ef el b h =
    get_or-set_ne _ last k 0 0 (omega arith) ∙ elim (Bool-cases (ltb k cursor)) [
      | inl before ↦
          shift_left-kept n from k buf1 (ground arith)
          ∙ get_or-set_ne _ (len + 1) k 0 0 (omega arith)
          ∙ get_or-set_ne _ cursor k c 0 (ground arith)
          ∙ shift_right-kept m cursor k buf (inl (ground arith))
      | inr after ↦
          shift_left-moved n from k buf1 (omega (arith, size)) (ground arith) (omega arith)
          ∙ get_or-set_ne _ (len + 1) (k + 1) 0 0 (omega arith)
          ∙ get_or-set_ne _ cursor (k + 1) c 0 (ground arith)
          ∙ shift_right-moved m cursor k buf (omega arith) (ground arith) (omega arith)
    ]
  where
    buf1 : List ℕ
    buf1 = set (set (shift_right m cursor buf) cursor c) (len + 1) 0

    size : length buf1 ≡ length buf
    size =
        length-set (set (shift_right m cursor buf) cursor c) (len + 1) 0
        ∙ length-set (shift_right m cursor buf) cursor c
        ∙ length-shift_right m cursor buf

abbrev with_char : Editor → ℕ → Editor
with_char ed c = record ed {
  buf = set (set (shift_right (ed.len - ed.cursor) ed.cursor ed.buf) ed.cursor c) (ed.len + 1) 0;
  len = ed.len + 1;
  cursor = ed.cursor + 1;
}

abbrev without_char : Editor → Editor
without_char ed = record ed {
  buf = set (shift_left (ed.len - ed.cursor) (ed.cursor - 1) ed.buf) (ed.len - 1) 0;
  len = ed.len - 1;
  cursor = ed.cursor - 1;
}

feed_char_inserts :
    (ed : Editor) (c : ℕ)
    → ed.focused ≡ true
    → ltb ed.len buf_size ≡ true
    → (c == backspace) ≡ false
    → feed_char ed c ≡ with_char ed c
unfolding feed_char insert
feed_char_inserts ed c focus room other = rw (focus, other, room) refl

feed_char_erases :
    (ed : Editor)
    → ed.focused ≡ true
    → ltb 0 ed.cursor ≡ true
    → feed_char ed backspace ≡ without_char ed
unfolding feed_char erase
feed_char_erases ed focus at = rw (focus, at) refl

-- In an editor that has the focus and room for a character, typing a character and then a backspace
-- brings back the text, its length, the cursor and the focus.
pub feed_char-backspace :
    (ed : Editor) (c : ℕ)
    → EditorFits ed
    → ed.focused ≡ true
    → ed.len < buf_size
    → (c == backspace) ≡ false
    → SameText (feed_char (feed_char ed c) backspace) ed
feed_char-backspace ed c f focus room other =
    rw
      (
        feed_char_inserts ed c focus (ground arith) other,
        feed_char_erases (with_char ed c) focus (ground arith),
      )
      (record {
        len = omega arith;
        cursor = omega arith;
        focused = refl;
        text = λ k h.
            restored (ed.len - ed.cursor) (ed.len + 1 - (ed.cursor + 1)) ed.len ed.cursor _ _ c k
              ed.buf (omega (arith, f.cursor_le)) (omega arith) (omega arith) (omega arith)
              (omega (arith, f.bytes)) h;
      })
