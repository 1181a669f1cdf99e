-- ===== src/Keyboard/Buffer.antt =====
-- kernel/drivers/keyboard.c: the ring of scancodes as a queue, and what polling reads of it.
use rave_os.Prelude.{
  ℕ, zero, suc, ◌+◌, ◌-◌, ◌%◌, ◌≤◌, ◌<◌, true, false, Option, none, some, List, [], ◌∷◌, ◌++◌, ◌==◌,
  if◌then◌else◌, ltb, get_elem?, get_or, get_elem?-set_self, get_elem?-set_ne, set, length,
  length-set, length-append, ◌≡◌, ◌≢◌, refl, sym, ap, subst, ◌∙◌, eq_of_some, if_cases, arith,
}
use mathlib.Core.Bool.{false≢true}
use rave_os.Keyboard.Scancodes.{Decoder, decode}
use rave_os.Keyboard.Driver.{kbd_buffer_size, Keyboard, push_scancode, pop, poll_char}

-- From slot `at` on, the buffer holds these scancodes in order.
abbrev pub SlotsHold : List ℕ → ℕ → List ℕ → Type 0
SlotsHold buf at [] = Unit {0}
SlotsHold buf at (c ∷ cs) =
    (get_elem? buf at ≡ some c) × SlotsHold buf ((at + 1) % kbd_buffer_size) cs

-- The buffer stands for the scancodes that wait, at most 31 of them, the oldest first.
abbrev pub Holds : Keyboard → List ℕ → Type 0
Holds kb l =
    (length kb.buffer ≡ kbd_buffer_size)
    × (kb.tail < kbd_buffer_size)
    × (length l < kbd_buffer_size)
    × (kb.head ≡ (kb.tail + length l) % kbd_buffer_size)
    × SlotsHold kb.buffer kb.tail l

next_slot : (at n : ℕ) → at < 32 → 0 < n → ((at + 1) % 32 + (n - 1)) % 32 ≡ (at + n) % 32
next_slot at n lt some_n = omega arith

slot_suc : (at n : ℕ) → at < 32 → (at + suc n) % 32 ≡ ((at + 1) % 32 + n) % 32
slot_suc at n lt = omega arith

other_slot : (at n : ℕ) → at < 32 → 0 < n → n < 32 → (at + n) % 32 ≢ at
other_slot at n lt some_n few = λ e. omega arith

SlotsHold-set :
    (buf : List ℕ) (sc at n : ℕ) (l : List ℕ)
    → at < 32
    → length l ≤ n
    → n < 32
    → SlotsHold buf at l
    → SlotsHold (set buf ((at + n) % 32) sc) at l
SlotsHold-set buf sc at n [] lt le few h = tt
SlotsHold-set buf sc at n (c ∷ cs) lt le few h = (
  get_elem?-set_ne buf ((at + n) % 32) at sc (other_slot at n lt (omega arith) few) ∙ h.0,
  subst (λ t. SlotsHold (set buf t sc) ((at + 1) % 32) cs) (next_slot at n lt (omega arith))
      (SlotsHold-set buf sc ((at + 1) % 32) (n - 1) cs (omega arith) (omega arith) (omega arith)
        h.1),
)

SlotsHold-snoc :
    (buf : List ℕ) (sc at : ℕ) (l : List ℕ)
    → at < 32
    → get_elem? buf ((at + length l) % 32) ≡ some sc
    → SlotsHold buf at l
    → SlotsHold buf at (l ++ (sc ∷ []))
SlotsHold-snoc buf sc at [] lt e h = (subst (λ t. get_elem? buf t ≡ some sc) (omega arith) e, tt)
SlotsHold-snoc buf sc at (c ∷ cs) lt e h = (
  h.0,
  SlotsHold-snoc buf sc ((at + 1) % 32) cs (omega arith)
      (subst (λ t. get_elem? buf t ≡ some sc) (slot_suc at (length cs) lt) e) h.1,
)

-- A list of scancodes with one more, if fewer than 31 wait.
abbrev pub queued : ℕ → List ℕ → List ℕ
queued sc l = if ltb (length l) 31 then l ++ (sc ∷ []) else l

lt→ltb : (a b : ℕ) → a < b → ltb a b ≡ true
lt→ltb a b h = ground arith

full_at : (tail n : ℕ) → tail < 32 → n < 32 → ((tail + n) % 32 + 1) % 32 ≡ tail → n ≡ 31
full_at tail n lt few e = omega arith

at_full : (tail n : ℕ) → tail < 32 → n ≡ 31 → ((tail + n) % 32 + 1) % 32 ≡ tail
at_full tail n lt e = omega arith

of_== : (a b : ℕ) → (a == b) ≡ true → a ≡ b
of_== a b e = ground arith

eq→== : (a b : ℕ) → a ≡ b → (a == b) ≡ true
eq→== a b e = ground arith

neq→== : (a b : ℕ) → a ≢ b → (a == b) ≡ false
neq→== a b ne = ground arith

-- If the buffer stands for a list of waiting scancodes, then after an interrupt it stands for the list
-- with the new scancode at its end, or for the same list if 31 wait already.
pub push_scancode-Holds :
    (sc : ℕ) (kb : Keyboard) (l : List ℕ) → Holds kb l → Holds (push_scancode sc kb) (queued sc l)
unfolding push_scancode
push_scancode-Holds sc kb l h =
    if_cases (λ (r : Keyboard). Holds r (queued sc l)) ((kb.head + 1) % 32 == kb.tail)
      (λ e.
        let full : length l ≡ 31 =
          full_at kb.tail (length l) h.1 h.2
            (ap (λ n. (n + 1) % 32) (sym h.3) ∙ of_== ((kb.head + 1) % 32) kb.tail e) in
        subst (Holds kb) (sym (at_capacity full)) h)
      (λ e.
        let few : length l < 31 = room (not_full e) in
        subst (Holds (record kb { buffer = set kb.buffer kb.head sc; head = (kb.head + 1) % 32 }))
          (sym (with_room few)) (stored few))
  where
    at_capacity : length l ≡ 31 → queued sc l ≡ l
    at_capacity e = rw e

    with_room : length l < 31 → queued sc l ≡ l ++ (sc ∷ [])
    with_room few = rw (lt→ltb (length l) 31 few)

    not_full : ((kb.head + 1) % 32 == kb.tail) ≡ false → length l ≢ 31
    not_full e full = false≢true (
        sym e
        ∙ eq→== ((kb.head + 1) % 32) kb.tail
            (ap (λ n. (n + 1) % 32) h.3 ∙ at_full kb.tail (length l) h.1 full))

    room : length l ≢ 31 → length l < 31
    room ne = let few = h.2 in omega (arith, ne)

    stored :
        length l < 31
        → Holds
            (record kb { buffer = set kb.buffer kb.head sc; head = (kb.head + 1) % 32 })
            (l ++ (sc ∷ []))
    stored few =
        let longer = length-append l (sc ∷ []) in
        let low = h.1 in
        let at = h.3 in
        let slot =
          get_elem?-set_self kb.buffer ((kb.tail + length l) % 32) sc (omega (arith, h.0)) in
        let kept = SlotsHold-set kb.buffer sc kb.tail (length l) l low (omega arith) h.2 h.4 in
        (
          length-set kb.buffer kb.head sc ∙ h.0,
          low,
          omega arith,
          omega arith,
          subst (λ t. SlotsHold (set kb.buffer t sc) kb.tail (l ++ (sc ∷ []))) (sym at)
              (SlotsHold-snoc (set kb.buffer ((kb.tail + length l) % 32) sc) sc kb.tail l low slot
                kept),
        )

get_or-get_elem? : (xs : List ℕ) (i c : ℕ) → get_elem? xs i ≡ some c → get_or xs i 0 ≡ c
get_or-get_elem? [] i c e = absurd (cc)
get_or-get_elem? (x ∷ xs) zero c e = eq_of_some e
get_or-get_elem? (x ∷ xs) (suc i) c e = get_or-get_elem? xs i c e

pop-none : (kb : Keyboard) → Holds kb [] → pop kb ≡ none
unfolding pop
pop-none kb h =
    let e : (kb.tail == kb.head) ≡ true = eq→== kb.tail kb.head (omega (arith, h.1, h.3)) in rw e

-- The buffer once its oldest scancode is read.
abbrev popped : Keyboard → Keyboard
popped kb = record kb { tail = (kb.tail + 1) % 32 }

pop-some : (kb : Keyboard) (c : ℕ) (cs : List ℕ) → Holds kb (c ∷ cs) → pop kb ≡ some (c, popped kb)
unfolding pop
pop-some kb c cs h =
    let few = h.2 in
    let at = h.3 in
    let low = h.1 in
    let e : (kb.tail == kb.head) ≡ false = neq→== kb.tail kb.head (λ s. omega arith) in
    rw (e, get_or-get_elem? kb.buffer kb.tail c h.4.0)

popped-Holds : (kb : Keyboard) (c : ℕ) (cs : List ℕ) → Holds kb (c ∷ cs) → Holds (popped kb) cs
popped-Holds kb c cs h =
    let few = h.2 in
    let at = h.3 in let low = h.1 in (h.0, omega arith, omega arith, omega arith, h.4.1)

-- The first character that the decoder finds in a list of scancodes, the decoder's flags then, and the
-- scancodes that are left.
unfoldable pub first_char : Decoder → List ℕ → Option ℕ × Decoder × List ℕ
first_char d [] = (none, d, [])
first_char d (sc ∷ scs) =
    let r = decode sc d in
    let later = first_char r.1 scs in elim r.0 [ some c ↦ (some c, r.1, scs) | none ↦ later ]

-- A result of polling agrees with one of decoding.
abbrev Agrees : Option ℕ × Keyboard → Option ℕ × Decoder × List ℕ → Type 0
Agrees r s = (r.0 ≡ s.0) × (r.1.decoder ≡ s.1) × Holds r.1 s.2

-- One round, whatever the decoder gives for its scancode.
round-Agrees :
    (o : Option ℕ) (d : Decoder) (kb : Keyboard) (cs : List ℕ) (later : Option ℕ × Keyboard)
    (first : Option ℕ × Decoder × List ℕ)
    → Holds kb cs
    → Agrees later first
    → Agrees
        (elim o [ some c ↦ (some c, record kb { decoder = d }) | none ↦ later ])
        (elim o [ some c ↦ (some c, d, cs) | none ↦ first ])
round-Agrees none d kb cs later first h k = k
round-Agrees (some c) d kb cs later first h k = (refl, refl, h)

-- If the buffer stands for a list of waiting scancodes, then polling, with more rounds than
-- scancodes wait, returns the first
-- character that decoding the list gives, or none if it gives none, leaves the decoder as that does,
-- and leaves a buffer that stands for the scancodes after that character's.
pub poll_char-Holds :
    (fuel : ℕ) (kb : Keyboard) (l : List ℕ)
    → length l < fuel
    → Holds kb l
    → (let r = poll_char fuel kb in
        let s = first_char kb.decoder l in (r.0 ≡ s.0) × (r.1.decoder ≡ s.1) × Holds r.1 s.2)
unfolding poll_char first_char
poll_char-Holds zero kb l lt h = absurd (omega arith)
poll_char-Holds (suc fuel) kb [] lt h = rw (poll_char, pop-none kb h) (refl, refl, h)
poll_char-Holds (suc fuel) kb (c ∷ cs) lt h =
    let r = decode c kb.decoder in
    let kb' = record (popped kb) { decoder = r.1 } in
    let k = popped-Holds kb c cs h in
    rw (poll_char, pop-some kb c cs h)
      (round-Agrees r.0 r.1 (popped kb) cs (poll_char fuel kb') (first_char r.1 cs) k
        (poll_char-Holds fuel kb' cs (omega arith) k))
