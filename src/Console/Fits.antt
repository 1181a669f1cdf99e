-- ===== src/Console/Fits.antt =====
-- The text buffers of kernel/gui/console_input.c and editor.c: a text with its NUL and a cursor in it.
use rave_os.Prelude.{
  if◌then◌else◌, Bool, ℕ, zero, suc, ◌+◌, ◌-◌, ◌≤◌, ◌<◌, ◌≡◌, refl, ◌∙◌, List, [], ◌∷◌, ◌==◌, some,
  get_elem?, get_elem?-set_self, set, length, length-set, arith, Bool-cases, inl, inr, Bool, true,
  false, if◌then◌else◌,
}
use rave_os.Console.Buffer.{shift_left, shift_right, store_string, stored_length}

-- A text of `len` characters with its NUL in a buffer of `size + 1` bytes, and a cursor in it.
pub record Fits (size : ℕ) (text : List ℕ) (len cursor : ℕ) : Type 0 where
  pub bytes : length text ≡ size + 1
  pub room : len ≤ size
  pub cursor_le : cursor ≤ len
  pub ends : get_elem? text len ≡ some 0

length-shift_left : (n from : ℕ) (text : List ℕ) → length (shift_left n from text) ≡ length text
unfolding shift_left
length-shift_left zero from text = refl
length-shift_left (suc n) from text = length-shift_left n (from + 1) _ ∙ length-set text from _

pub length-shift_right : (n to : ℕ) (text : List ℕ) → length (shift_right n to text) ≡ length text
unfolding shift_right
length-shift_right zero to text = refl
length-shift_right (suc n) to text = length-shift_right n to _ ∙ length-set text (to + suc n) _

-- A NUL put at the new end of a text.
pub put_end :
    (size len cursor : ℕ) (text : List ℕ)
    → length text ≡ size + 1
    → len ≤ size
    → cursor ≤ len
    → Fits size (set text len 0) len cursor
put_end size len cursor text b h c = record {
  bytes = length-set text len 0 ∙ b;
  room = h;
  cursor_le = c;
  ends = get_elem?-set_self text len 0 (omega arith);
}

-- The character before the cursor goes.
pub erased :
    (size len cursor : ℕ) (text : List ℕ)
    → Fits size text len cursor
    → Fits size
        (set (shift_left (len - cursor) (cursor - 1) text) (len - 1) 0)
        (len - 1)
        (cursor - 1)
erased size len cursor text f =
    put_end size (len - 1) (cursor - 1) _
      (length-shift_left (len - cursor) (cursor - 1) text ∙ f.bytes) (omega (arith, f.room))
      (omega (arith, f.cursor_le))

-- The character under the cursor goes.
pub erased_forward :
    (size len cursor : ℕ) (text : List ℕ)
    → Fits size text len cursor
    → cursor < len
    → Fits size (set (shift_left (len - 1 - cursor) cursor text) (len - 1) 0) (len - 1) cursor
erased_forward size len cursor text f h =
    put_end size (len - 1) cursor _ (length-shift_left (len - 1 - cursor) cursor text ∙ f.bytes)
      (omega (arith, f.room)) (omega arith)

-- A character comes in at the cursor.
pub inserted :
    (size len cursor c : ℕ) (text : List ℕ)
    → Fits size text len cursor
    → len < size
    → Fits size
        (set (set (shift_right (len - cursor) cursor text) cursor c) (len + 1) 0)
        (len + 1)
        (cursor + 1)
inserted size len cursor c text f h =
    put_end size (len + 1) (cursor + 1) _
      (length-set (shift_right (len - cursor) cursor text) cursor c
        ∙ length-shift_right (len - cursor) cursor text
        ∙ f.bytes)
      (omega arith) (omega (arith, f.cursor_le))

-- The cursor goes elsewhere in the text.
pub moved :
    {size len cursor : ℕ} {text : List ℕ} (cursor' : ℕ)
    → Fits size text len cursor
    → cursor' ≤ len
    → Fits size text len cursor'
moved cursor' f h = record { bytes = f.bytes; room = f.room; cursor_le = h; ends = f.ends }

length-store_string : (n i : ℕ) (src dst : List ℕ) → length (store_string n i src dst) ≡ length dst
unfolding store_string
length-store_string zero i src dst = length-set dst i 0
length-store_string (suc n) i [] dst = length-set dst i 0
length-store_string (suc n) i (c ∷ src) dst = elim (Bool-cases (c == 0)) [
  | inl e ↦ rw e (length-set dst i 0)
  | inr e ↦ rw e (length-store_string n (i + 1) src (set dst i c) ∙ length-set dst i c)
]

stored_length_le : (n : ℕ) (src : List ℕ) → stored_length n src ≤ n
unfolding stored_length
stored_length_le zero src = omega arith
stored_length_le (suc n) [] = omega arith
stored_length_le (suc n) (c ∷ src) = elim (Bool-cases (c == 0)) [
  | inl e ↦ rw e (omega arith)
  | inr e ↦ rw e (omega (arith, stored_length_le n src))
]

nul_at : (i j : ℕ) (dst : List ℕ) → j ≡ i → i < length dst → get_elem? (set dst i 0) j ≡ some 0
nul_at i j dst e h = rw e (get_elem?-set_self dst i 0 h)

stopped_or :
    (stops : Bool) (i j n : ℕ) (dst rest : List ℕ)
    → i < length dst
    → j ≡ i + (if stops then 0 else n + 1)
    → (j ≡ i + 1 + n → get_elem? rest j ≡ some 0)
    → get_elem? (if stops then set dst i 0 else rest) j ≡ some 0
stopped_or true i j n dst rest h e k = nul_at i j dst (omega arith) h
stopped_or false i j n dst rest h e k = k (omega arith)

ends-store_string :
    (n i j : ℕ) (src dst : List ℕ)
    → i + n < length dst
    → j ≡ i + stored_length n src
    → get_elem? (store_string n i src dst) j ≡ some 0
unfolding store_string stored_length
ends-store_string zero i j src dst h e = nul_at i j dst (omega arith) (omega arith)
ends-store_string (suc n) i j [] dst h e = nul_at i j dst (omega arith) (omega arith)
ends-store_string (suc n) i j (c ∷ src) dst h e =
    stopped_or (c == 0) i j (stored_length n src) dst (store_string n (i + 1) src (set dst i c))
      (omega arith) e
      (λ e'. ends-store_string n (i + 1) j src (set dst i c) (omega (arith, length-set dst i c)) e')

-- A string laid into the buffer, the cursor after it.
pub stored :
    (size : ℕ) (src dst : List ℕ)
    → length dst ≡ size + 1
    → Fits size (store_string size 0 src dst) (stored_length size src) (stored_length size src)
stored size src dst b = record {
  bytes = length-store_string size 0 src dst ∙ b;
  room = stored_length_le size src;
  cursor_le = omega arith;
  ends = ends-store_string size 0 (stored_length size src) src dst (omega arith) (omega arith);
}

-- An empty text.
pub emptied : (size : ℕ) (text : List ℕ) → length text ≡ size + 1 → Fits size (set text 0 0) 0 0
emptied size text b = put_end size 0 0 text b (omega arith) (omega arith)
