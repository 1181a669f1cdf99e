-- ===== src/Console/Recall.antt =====
-- kernel/gui/console_history.c against the list of the lines that were pushed last.
use rave_os.Prelude.{
  false, ◌==◌, Bool-cases, inl, inr, Option, some, none, some, none, Option, min, if◌then◌else◌,
  ◌≢◌, ℕ, zero, suc, ◌+◌, ◌-◌, ◌%◌, ◌≤◌, ◌<◌, ◌≡◌, refl, ◌∙◌, List, [], ◌∷◌, ltb, get_or, set,
  length, take, get_or-set_self, get_or-set_ne, length-set, arith, sym, ap, length-take,
}
use rave_os.Console.Input.{console_input_max}
use rave_os.Console.History.{
  prev, step_back, browse, History, history_index, console_history_max, push, recalled,
}

-- The history holds the lines `recent`, the most recent one first.
pub record Holds (h : History) (recent : List (List ℕ)) : Type 0 where
  pub slots : length h.lines ≡ console_history_max
  pub next_lt : h.next < console_history_max
  pub count : h.count ≡ length recent
  pub count_le : length recent ≤ console_history_max
  pub lines : (k : ℕ) → k < length recent → recalled h k ≡ get_or recent k []

-- A line that is pushed comes first, and the oldest of sixteen is forgotten.
abbrev pub remember : List ℕ → List (List ℕ) → List (List ℕ)
remember [] recent = recent
remember (c ∷ line) recent = take console_history_max (take console_input_max (c ∷ line) ∷ recent)

pub get_or-take : (n k : ℕ) (xs : List (List ℕ)) → k < n → get_or (take n xs) k [] ≡ get_or xs k []
get_or-take zero k xs h = absurd (omega arith)
get_or-take (suc n) k [] h = refl
get_or-take (suc n) zero (x ∷ xs) h = refl
get_or-take (suc n) (suc k) (x ∷ xs) h = get_or-take n k xs (omega arith)

newest : (next : ℕ) → next < 16 → ((next + 1) % 16 + 32 - 1 - 0) % 16 ≡ next
newest next h = omega arith

back_one :
    (next k : ℕ)
    → next < 16
    → k < 15
    → ((next + 1) % 16 + 32 - 1 - suc k) % 16 ≡ (next + 32 - 1 - k) % 16
back_one next k h lt = omega arith

not_newest : (next k : ℕ) → next < 16 → k < 15 → (next + 32 - 1 - k) % 16 ≢ next
not_newest next k h lt = omega arith

-- The ring after `text` was put into its next slot.
pushed_lines :
    (slots : List (List ℕ)) (next : ℕ) (text : List ℕ) (recent : List (List ℕ))
    → length slots ≡ 16
    → next < 16
    → ((k : ℕ)
        → k < length recent
        → get_or slots ((next + 32 - 1 - k) % 16) [] ≡ get_or recent k [])
    → (k : ℕ) → k < length (text ∷ take 15 recent)
    → get_or (set slots next text) (((next + 1) % 16 + 32 - 1 - k) % 16) []
      ≡ get_or (text ∷ take 15 recent) k []
pushed_lines slots next text recent b h old zero lt =
    get_or-set_self slots next _ text [] (newest next h) (omega arith)
pushed_lines slots next text recent b h old (suc k) lt =
    ap (λ i. get_or (set slots next text) i []) (back_one next k h small)
    ∙ get_or-set_ne slots next _ text [] (not_newest next k h small)
    ∙ old k (omega (arith, length-take 15 recent))
    ∙ sym (get_or-take 15 k recent small)
  where
    small : k < 15
    small = omega (arith, length-take 15 recent)

counted : (n : ℕ) → n ≤ 16 → (if ltb n 16 then n + 1 else n) ≡ suc (min 15 n)
counted n h = ground arith

-- Pushing a line onto a history that holds the lines `recent` gives one that holds the line, cut to 127
-- characters, before the most recent fifteen of them; an empty line changes nothing.
pub push-Holds :
    (h : History) (line : List ℕ) (recent : List (List ℕ))
    → Holds h recent
    → Holds (push h line) (remember line recent)
unfolding push recalled history_index
push-Holds h [] recent x = x
push-Holds h (c ∷ line) recent x = record {
  slots = length-set h.lines h.next _ ∙ x.slots;
  next_lt = omega arith;
  count = rw (x.count) (counted (length recent) x.count_le ∙ ap suc (sym (length-take 15 recent)));
  count_le = omega (arith, length-take 15 recent);
  lines = pushed_lines h.lines h.next _ recent x.slots x.next_lt x.lines;
}

-- The offset of the line that one more key up shows, if there is one.
abbrev pub older : List (List ℕ) → Option ℕ → Option ℕ
older [] offset = none
older (line ∷ recent) none = some 0
older (line ∷ recent) (some k) = if ltb (k + 1) (length (line ∷ recent)) then some (k + 1) else none

abbrev pub shown : History → List (List ℕ) → Option ℕ → Option (List ℕ) × History
shown h recent none = (none, h)
shown h recent (some k) = (some (get_or recent k []), record h { browse_offset = some k })

browse-Holds :
    (h : History) (recent : List (List ℕ)) (k : ℕ)
    → Holds h recent
    → k < length recent
    → browse h k ≡ shown h recent (some k)
browse-Holds h recent k x lt = rw (x.lines k lt) refl

-- A key up on a history that holds `recent` shows the next older line of `recent`, and nothing at
-- its end.
pub prev-Holds :
    (h : History) (recent : List (List ℕ))
    → Holds h recent
    → prev h ≡ shown h recent (older recent h.browse_offset)
unfolding prev
prev-Holds h [] x = rw (x.count) refl
prev-Holds h (line ∷ recent) x = rw some_lines (from h.browse_offset)
  where
    some_lines : (h.count == 0) ≡ false
    some_lines = ground (arith, x.count)

    from :
        (offset : Option ℕ)
        → step_back h offset ≡ shown h (line ∷ recent) (older (line ∷ recent) offset)
    from none = browse-Holds h (line ∷ recent) 0 x (omega arith)
    from (some k) = elim (Bool-cases (ltb (k + 1) (length (line ∷ recent)))) [
      | inl e ↦
          rw (ap (ltb (k + 1)) x.count ∙ e, e)
            (browse-Holds h (line ∷ recent) (k + 1) x (ground arith))
      | inr e ↦ rw (ap (ltb (k + 1)) x.count ∙ e, e) refl
    ]
