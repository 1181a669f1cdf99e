-- ===== src/Console/Scrollback.antt =====
-- kernel/gui/console_output.c against the list of the lines that were appended last.
use rave_os.Prelude.{
  ◌/◌, ℕ, zero, suc, ◌+◌, ◌-◌, ◌%◌, ◌≤◌, ◌<◌, ◌≡◌, ◌≢◌, refl, sym, ap, ◌∙◌, min, List, [], ◌∷◌, ltb,
  if◌then◌else◌, get_or, set, length, take, length-take, get_or-set_self, get_or-set_ne, length-set,
  arith,
}
use rave_os.Console.Output.{
  Output, line_max, append_line, ring_index, drawn_from, drawn, rows_shown,
}
use rave_os.Console.Recall.{get_or-take}

-- The scrollback holds the lines `recent`, the most recent one first.
pub record Keeps (co : Output) (recent : List (List ℕ)) : Type 0 where
  pub slots : length co.lines ≡ 40
  pub next_lt : co.next_line < 40
  pub count : co.line_count ≡ length recent
  pub count_le : length recent ≤ 40
  pub lines :
      (k : ℕ) → k < length recent → get_or co.lines (ring_index co k) [] ≡ get_or recent k []

newest : (next : ℕ) → next < 40 → ((next + 1) % 40 + 80 - 1 - 0) % 40 ≡ next
newest next h = omega arith

back_one :
    (next k : ℕ)
    → next < 40
    → k < 39
    → ((next + 1) % 40 + 80 - 1 - suc k) % 40 ≡ (next + 80 - 1 - k) % 40
back_one next k h lt = omega arith

not_newest : (next k : ℕ) → next < 40 → k < 39 → (next + 80 - 1 - k) % 40 ≢ next
not_newest next k h lt = omega arith

-- The ring after `text` was put into its next slot.
appended_lines :
    (slots : List (List ℕ)) (next : ℕ) (text : List ℕ) (recent : List (List ℕ))
    → length slots ≡ 40
    → next < 40
    → ((k : ℕ)
        → k < length recent
        → get_or slots ((next + 80 - 1 - k) % 40) [] ≡ get_or recent k [])
    → (k : ℕ) → k < length (text ∷ take 39 recent)
    → get_or (set slots next text) (((next + 1) % 40 + 80 - 1 - k) % 40) []
      ≡ get_or (text ∷ take 39 recent) k []
appended_lines slots next text recent b h old zero lt =
    get_or-set_self slots next _ text [] (newest next h) (omega arith)
appended_lines slots next text recent b h old (suc k) lt =
    ap (λ i. get_or (set slots next text) i []) (back_one next k h small)
    ∙ get_or-set_ne slots next _ text [] (not_newest next k h small)
    ∙ old k (omega (arith, length-take 39 recent))
    ∙ sym (get_or-take 39 k recent small)
  where
    small : k < 39
    small = omega (arith, length-take 39 recent)

counted : (n : ℕ) → n ≤ 40 → (if ltb n 40 then n + 1 else n) ≡ suc (min 39 n)
counted n h = ground arith

append_line-Keeps :
    (co : Output) (text : List ℕ) (recent : List (List ℕ))
    → Keeps co recent
    → Keeps (append_line co text) (take line_max text ∷ take 39 recent)
unfolding append_line ring_index
append_line-Keeps co text recent x = record {
  slots = length-set co.lines co.next_line _ ∙ x.slots;
  next_lt = omega arith;
  count = rw (x.count) (counted (length recent) x.count_le ∙ ap suc (sym (length-take 39 recent)));
  count_le = omega (arith, length-take 39 recent);
  lines = appended_lines co.lines co.next_line _ recent x.slots x.next_lt x.lines;
}

-- The first `n` lines, the last of them on top.
unfoldable pub upwards : ℕ → List (List ℕ) → List (List ℕ)
upwards zero recent = []
upwards (suc n) recent = get_or recent n [] ∷ upwards n recent

drawn_from-Keeps :
    (n : ℕ) (co : Output) (recent : List (List ℕ))
    → Keeps co recent
    → n ≤ length recent
    → drawn_from co n ≡ upwards n recent
unfolding drawn_from upwards
drawn_from-Keeps zero co recent x h = refl
drawn_from-Keeps (suc n) co recent x h =
    ap (λ l. l ∷ drawn_from co n) (x.lines n (omega arith))
    ∙ ap (λ ls. get_or recent n [] ∷ ls) (drawn_from-Keeps n co recent x (omega arith))

rows_shown-le : (co : Output) → rows_shown co ≤ co.line_count
unfolding rows_shown
rows_shown-le co = ground arith

rows_shown-min : (co : Output) → rows_shown co ≡ min co.line_count (co.height / 9)
unfolding rows_shown
rows_shown-min co = ground arith

-- After a line is appended to a scrollback that holds `recent`, what is drawn are the most recent
-- lines, cut to 64 characters, the new one at the bottom: all of the at most forty that are kept, or as
-- many as fit the height at nine pixels each.
pub drawn-append_line :
    (co : Output) (text : List ℕ) (recent : List (List ℕ))
    → Keeps co recent
    → drawn (append_line co text)
      ≡ upwards
          (min (suc (min 39 (length recent))) (co.height / 9))
          (take line_max text ∷ take 39 recent)
unfolding drawn append_line
drawn-append_line co text recent x =
    let y = append_line-Keeps co text recent x in
    drawn_from-Keeps (rows_shown (append_line co text)) (append_line co text) _ y
      (omega (arith, rows_shown-le (append_line co text), y.count))
    ∙ ap (λ n. upwards n (take line_max text ∷ take 39 recent))
        (rows_shown-min (append_line co text)
          ∙ ap (λ n. min n (co.height / 9)) (y.count ∙ ap suc (length-take 39 recent)))
