-- ===== src/Audio/Queue.antt =====
-- v2/core/kernel/kernel_audio.c: the ring of commands as a queue.
use rave_os.Prelude.{
  ℕ, zero, suc, ◌+◌, ◌-◌, ◌%◌, ◌^◌, ◌≤◌, ◌<◌, Bool, true, false, some, List, [], ◌∷◌, ◌++◌, ◌==◌,
  if◌then◌else◌, ltb, get_elem?, get_elem?-set_self, get_elem?-set_ne, set, length, length-set,
  length-append, ◌≡◌, ◌≢◌, inl, inr, refl, sym, subst, ◌∙◌, Bool-cases, if_cases, ltb→lt, arith,
}
use mathlib.Core.Bool.{false≢true}
use rave_os.Audio.Commands.{Command}
use rave_os.Audio.Ring.{Ring, queue_len, used, try_enqueue, taken, drained, enqueue_retrying}

-- From counter `at` on, the slots hold these commands in order.
abbrev pub SlotsHold : List Command → ℕ → List Command → Type 0
SlotsHold buf at [] = Unit {0}
SlotsHold buf at (c ∷ cs) =
    (get_elem? buf (at % queue_len) ≡ some c) × SlotsHold buf ((at + 1) % 2 ^ 32) cs

-- The ring stands for the list of the commands that wait, the oldest first.
abbrev pub Holds : Ring → List Command → Type 0
Holds q l =
    (length q.buf ≡ queue_len)
    × (q.head < 2 ^ 32)
    × (length l ≤ queue_len)
    × (q.tail ≡ (q.head + length l) % 2 ^ 32)
    × SlotsHold q.buf q.head l

used-length : (q : Ring) (l : List Command) → Holds q l → used q ≡ length l
used-length q l h = let bound = h.2 in let at = h.3 in let low = h.1 in omega arith

next_counter :
    (at n : ℕ) → at < 2 ^ 32 → 0 < n → ((at + 1) % 2 ^ 32 + (n - 1)) % 2 ^ 32 ≡ (at + n) % 2 ^ 32
next_counter at n lt some_n = omega arith

counter_suc : (at n : ℕ) → at < 2 ^ 32 → (at + suc n) % 2 ^ 32 ≡ ((at + 1) % 2 ^ 32 + n) % 2 ^ 32
counter_suc at n lt = omega arith

other_slot : (at n : ℕ) → at < 2 ^ 32 → 0 < n → n < 16 → (at + n) % 2 ^ 32 % 16 ≢ at % 16
other_slot at n lt some_n few = λ e. omega arith

SlotsHold-set :
    (buf : List Command) (cmd : Command) (at n : ℕ) (l : List Command)
    → at < 2 ^ 32
    → length l ≤ n
    → n < 16
    → SlotsHold buf at l
    → SlotsHold (set buf ((at + n) % 2 ^ 32 % queue_len) cmd) at l
SlotsHold-set buf cmd at n [] lt le few h = tt
SlotsHold-set buf cmd at n (c ∷ cs) lt le few h = (
  get_elem?-set_ne buf ((at + n) % 2 ^ 32 % queue_len) (at % queue_len) cmd
        (other_slot at n lt (omega arith) few)
      ∙ h.0,
  subst (λ t. SlotsHold (set buf (t % queue_len) cmd) ((at + 1) % 2 ^ 32) cs)
      (next_counter at n lt (omega arith))
      (SlotsHold-set buf cmd ((at + 1) % 2 ^ 32) (n - 1) cs (omega arith) (omega arith)
        (omega arith) h.1),
)

SlotsHold-snoc :
    (buf : List Command) (cmd : Command) (at : ℕ) (l : List Command)
    → at < 2 ^ 32
    → get_elem? buf ((at + length l) % 2 ^ 32 % queue_len) ≡ some cmd
    → SlotsHold buf at l
    → SlotsHold buf at (l ++ (cmd ∷ []))
SlotsHold-snoc buf cmd at [] lt e h =
    (subst (λ t. get_elem? buf (t % queue_len) ≡ some cmd) (omega arith) e, tt)
SlotsHold-snoc buf cmd at (c ∷ cs) lt e h = (
  h.0,
  SlotsHold-snoc buf cmd ((at + 1) % 2 ^ 32) cs (omega arith)
      (subst (λ t. get_elem? buf (t % queue_len) ≡ some cmd) (counter_suc at (length cs) lt) e) h.1,
)

-- A list of commands with one more, if there is room for it.
abbrev pub queued : Command → List Command → List Command
queued cmd l = if ltb (length l) queue_len then l ++ (cmd ∷ []) else l

-- If the ring stands for a list of waiting commands, then queueing a command succeeds exactly if fewer
-- than 16 wait, and the ring then stands for the list with the command at its end; otherwise it stands
-- for the same list. This holds also where the counters wrap around.
pub try_enqueue-Holds :
    (cmd : Command) (q : Ring) (l : List Command)
    → Holds q l
    → ((try_enqueue cmd q).0 ≡ ltb (length l) queue_len)
      × Holds (try_enqueue cmd q).1 (queued cmd l)
unfolding try_enqueue
try_enqueue-Holds cmd q l h = elim (Bool-cases (ltb (length l) queue_len)) [
  | inr full ↦ rw (used-length q l h, full) (refl, h)
  | inl room ↦ rw (used-length q l h, room) (refl, stored (ltb→lt (length l) queue_len room))
]
  where
    stored :
        length l < 16
        → Holds
            (record q { buf = set q.buf (q.tail % queue_len) cmd; tail = (q.tail + 1) % 2 ^ 32 })
            (l ++ (cmd ∷ []))
    stored few =
        let longer = length-append l (cmd ∷ []) in
        let low = h.1 in
        let at = h.3 in
        let buf' = set q.buf ((q.head + length l) % 2 ^ 32 % queue_len) cmd in
        let slot =
          get_elem?-set_self q.buf ((q.head + length l) % 2 ^ 32 % queue_len) cmd
            (omega (arith, h.0)) in
        let kept = SlotsHold-set q.buf cmd q.head (length l) l low (omega arith) few h.4 in
        (
          length-set q.buf (q.tail % queue_len) cmd ∙ h.0,
          low,
          omega arith,
          omega arith,
          subst (λ t. SlotsHold (set q.buf (t % queue_len) cmd) q.head (l ++ (cmd ∷ []))) (sym at)
              (SlotsHold-snoc buf' cmd q.head l low slot kept),
        )

eq→== : (a b : ℕ) → a ≡ b → (a == b) ≡ true
eq→== a b e = ground arith

neq→== : (a b : ℕ) → a ≢ b → (a == b) ≡ false
neq→== a b ne = ground arith

taken-SlotsHold :
    (fuel : ℕ) (q : Ring) (l : List Command)
    → q.head < 2 ^ 32
    → length l ≤ fuel
    → length l ≤ 16
    → q.tail ≡ (q.head + length l) % 2 ^ 32
    → SlotsHold q.buf q.head l
    → taken fuel q ≡ some l
unfolding taken
taken-SlotsHold zero q [] lt le few at h =
    let e : (q.head == q.tail) ≡ true = eq→== q.head q.tail (omega arith) in rw e
taken-SlotsHold zero q (c ∷ cs) lt le few at h = absurd (omega arith)
taken-SlotsHold (suc fuel) q [] lt le few at h =
    let e : (q.head == q.tail) ≡ true = eq→== q.head q.tail (omega arith) in rw e
taken-SlotsHold (suc fuel) q (c ∷ cs) lt le few at h =
    let e : (q.head == q.tail) ≡ false = neq→== q.head q.tail (λ s. omega arith) in
    let rest =
      taken-SlotsHold fuel (record q { head = (q.head + 1) % 2 ^ 32 }) cs (omega arith)
        (omega arith) (omega arith) (omega arith) h.1 in
    rw (e, rest, h.0)

-- If the ring stands for a list of waiting commands, then the audio thread takes exactly these, in
-- their order, within 16 rounds and without a read outside the buffer, and leaves a ring that stands
-- for the empty list.
pub taken-Holds :
    (q : Ring) (l : List Command) → Holds q l → (taken queue_len q ≡ some l) × Holds (drained q) []
taken-Holds q l h =
    let few = h.2 in
    (
      taken-SlotsHold queue_len q l h.1 few few h.3 h.4,
      (h.0, omega (arith, h.3), omega arith, omega (arith, h.3), tt),
    )

abbrev IsQueued : List Command → Bool × Ring → Type 0
IsQueued l r = (r.0 ≡ true) × Holds r.1 l

retrying_empty :
    (cmd : Command) (tries : ℕ) (q : Ring)
    → Holds q []
    → IsQueued (cmd ∷ []) (enqueue_retrying cmd tries drained q)
unfolding enqueue_retrying
retrying_empty cmd zero q h = try_enqueue-Holds cmd q [] h
retrying_empty cmd (suc tries) q h =
    let first = try_enqueue-Holds cmd q [] h in
    if_cases (IsQueued (cmd ∷ [])) (try_enqueue cmd q).0 (λ e. first)
      (λ e. absurd (false≢true (sym e ∙ first.0)))

-- If the ring stands for a list of waiting commands and the audio thread drains it while the release of
-- an owner waits, then the release is queued with its second try at the latest: the ring ends with it
-- after the commands that wait, or alone if 16 commands waited.
pub enqueue_retrying-Holds :
    (cmd : Command) (tries : ℕ) (q : Ring) (l : List Command)
    → Holds q l
    → (let r = enqueue_retrying cmd (suc tries) drained q in
        (r.0 ≡ true) × Holds r.1 (if ltb (length l) queue_len then l ++ (cmd ∷ []) else cmd ∷ []))
unfolding enqueue_retrying
enqueue_retrying-Holds cmd tries q l h =
    let first = try_enqueue-Holds cmd q l h in
    let emptied = (taken-Holds (try_enqueue cmd q).1 (queued cmd l) first.1).1 in
    elim (Bool-cases (ltb (length l) queue_len)) [
      | inl room ↦
          let stored : IsQueued (l ++ (cmd ∷ [])) (try_enqueue cmd q) =
            (first.0 ∙ room, subst (Holds (try_enqueue cmd q).1) (chosen room) first.1) in
          rw room (
            if_cases (IsQueued (l ++ (cmd ∷ []))) (try_enqueue cmd q).0 (λ e. stored)
              (λ e. absurd (false≢true (sym e ∙ stored.0))))
      | inr full ↦ rw full (
          if_cases (IsQueued (cmd ∷ [])) (try_enqueue cmd q).0
            (λ e. absurd (false≢true (sym full ∙ sym first.0 ∙ e)))
            (λ e. retrying_empty cmd tries (drained (try_enqueue cmd q).1) emptied))
    ]
  where
    chosen : ltb (length l) queue_len ≡ true → queued cmd l ≡ l ++ (cmd ∷ [])
    chosen room = rw room
