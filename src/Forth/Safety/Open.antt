-- ===== src/Forth/Safety/Open.antt =====
-- The code of a definition that is still being compiled, from `s` on: each branch has a target
-- between `s` and `bound`, or an entry on the control stack that will patch it.
use rave_os.Prelude.{
  ℕ, ◌+◌, ◌-◌, ◌≤◌, ◌<◌, ◌≡◌, ◌≢◌, refl, sym, subst, ◌∙◌, List, [], ◌∷◌, ◌++◌, some, get_elem?, set,
  length, length-append, length-set, get_elem?-append_left, get_elem?-append_last,
  get_elem?-set_self, get_elem?-set_ne, ◌⊎◌, inl, inr, arith,
}
use native.Mathlib.Decide.{ℕ_discrete}
use rave_os.Forth.Vm.{
  Instr, Op, literal, call_primitive, call_word, exit, branch, branch_if_zero, call_yield, Ctrl,
  Kind, kind_if, kind_begin,
}
use rave_os.Forth.Words.{primitives}
use rave_os.Forth.Compile.{instr, ctrl, patched}
use rave_os.Forth.Safety.Code.{ArgOk, InstrAt, Body}

abbrev pub IsBranch : Op → Type 0
IsBranch branch = Unit {0}
IsBranch branch_if_zero = Unit {0}
IsBranch _ = ⊥

-- An entry that will patch the branch at `k`.
abbrev pub Pending : ℕ → List Ctrl → Type 0
Pending k [] = ⊥
Pending k (e ∷ es) = ((e.kind ≡ kind_if) × (e.value ≡ k)) ⊎ Pending k es

abbrev pub Target : ℕ → ℕ → List Ctrl → ℕ → ℕ → Type 0
Target s bound stack k a = ((s ≤ a) × (a ≤ bound)) ⊎ Pending k stack

abbrev pub OpenArg : ℕ → ℕ → ℕ → List Ctrl → ℕ → Op → ℕ → Type 0
OpenArg words s bound stack k branch a = Target s bound stack k a
OpenArg words s bound stack k branch_if_zero a = Target s bound stack k a
OpenArg words s bound stack k literal a = Unit {0}
OpenArg words s bound stack k call_primitive a = a < length primitives
OpenArg words s bound stack k call_word a = a < words
OpenArg words s bound stack k exit a = Unit {0}
OpenArg words s bound stack k call_yield a = Unit {0}

abbrev pub EntryOk : List Instr → ℕ → ℕ → Kind → ℕ → Type 0
EntryOk code s bound kind_if v = (s ≤ v) × (v < length code) × InstrAt code v (λ i. IsBranch i.op)
EntryOk code s bound kind_begin v = (s ≤ v) × (v ≤ bound)

abbrev pub EntriesOk : List Instr → ℕ → ℕ → List Ctrl → Type 0
EntriesOk code s bound [] = Unit {0}
EntriesOk code s bound (e ∷ es) = EntryOk code s bound e.kind e.value × EntriesOk code s bound es

pub record Open (code : List Instr) (words s : ℕ) (stack : List Ctrl) (bound : ℕ) : Type 0 where
  pub instrs :
      (k : ℕ)
      → s ≤ k
      → k < length code
      → InstrAt code k (λ i. OpenArg words s bound stack k i.op i.arg)
  pub entries : EntriesOk code s bound stack

-- A larger bound and a control stack with more entries allow more.
OpenArg-mono :
    (words s b b' k : ℕ) (stack stack' : List Ctrl) (op : Op) (a : ℕ)
    → b ≤ b'
    → (Pending k stack → Pending k stack')
    → OpenArg words s b stack k op a
    → OpenArg words s b' stack' k op a
OpenArg-mono words s b b' k stack stack' branch a h p (inl t) = inl (omega arith)
OpenArg-mono words s b b' k stack stack' branch a h p (inr t) = inr (p t)
OpenArg-mono words s b b' k stack stack' branch_if_zero a h p (inl t) = inl (omega arith)
OpenArg-mono words s b b' k stack stack' branch_if_zero a h p (inr t) = inr (p t)
OpenArg-mono words s b b' k stack stack' literal a h p t = t
OpenArg-mono words s b b' k stack stack' call_primitive a h p t = t
OpenArg-mono words s b b' k stack stack' call_word a h p t = t
OpenArg-mono words s b b' k stack stack' exit a h p t = t
OpenArg-mono words s b b' k stack stack' call_yield a h p t = t

-- Entries stay good when the code keeps its length at least and its branches are still branches.
EntriesOk-mono :
    (code code' : List Instr) (s b b' : ℕ) (stack : List Ctrl)
    → length code ≤ length code'
    → b ≤ b'
    → ((k : ℕ)
        → k < length code
        → InstrAt code k (λ i. IsBranch i.op)
        → InstrAt code' k (λ i. IsBranch i.op))
    → EntriesOk code s b stack
    → EntriesOk code' s b' stack
EntriesOk-mono code code' s b b' [] l h keep t = tt
EntriesOk-mono code code' s b b' (e ∷ es) l h keep t =
    (entry e.kind t.0, EntriesOk-mono code code' s b b' es l h keep t.1)
  where
    entry : (kind : Kind) → EntryOk code s b kind e.value → EntryOk code' s b' kind e.value
    entry kind_if x = (x.0, omega (arith, x.1), keep e.value x.1 x.2)
    entry kind_begin x = omega arith

pub Open-mono :
    {code : List Instr} {words s b b' : ℕ} {stack : List Ctrl}
    → b ≤ b'
    → Open code words s stack b
    → Open code words s stack b'
Open-mono {code} {words} {s} {b} {b'} {stack} h o = record {
  instrs = λ k lo hi.
      let (i, at, ok) = o.instrs k lo hi in
      (i, at, OpenArg-mono words s b b' k stack stack i.op i.arg h (λ p. p) ok);
  entries = EntriesOk-mono code code s b b' stack (omega arith) h (λ k _ x. x) o.entries;
}

-- An entry for a loop comes or goes.
pub Open-begin :
    {code : List Instr} {words s b : ℕ} {stack : List Ctrl} (v : ℕ)
    → s ≤ v
    → v ≤ b
    → Open code words s stack b
    → Open code words s (ctrl kind_begin v ∷ stack) b
Open-begin {code} {words} {s} {b} {stack} v lo hi o = record {
  instrs = λ k l h.
      let (i, at, ok) = o.instrs k l h in
      (
        i,
        at,
        OpenArg-mono words s b b k stack (ctrl kind_begin v ∷ stack) i.op i.arg (omega arith)
            (λ p. inr p) ok,
      );
  entries = ((lo, hi), o.entries);
}

pub Open-end :
    {code : List Instr} {words s b : ℕ} {stack : List Ctrl} (v : ℕ)
    → Open code words s (ctrl kind_begin v ∷ stack) b
    → Open code words s stack b
Open-end {code} {words} {s} {b} {stack} v o = record {
  instrs = λ k l h.
      let (i, at, ok) = o.instrs k l h in
      (
        i,
        at,
        OpenArg-mono words s b b k (ctrl kind_begin v ∷ stack) stack i.op i.arg (omega arith)
            (below k) ok,
      );
  entries = o.entries.1;
}
  where
    below : (k : ℕ) → Pending k (ctrl kind_begin v ∷ stack) → Pending k stack
    below k (inl x) = cc (x.0)
    below k (inr x) = x

-- One more instruction, with the control stack `stack'` after it.
pub Open-append :
    {code : List Instr} {words s b b' : ℕ} {stack : List Ctrl} (stack' : List Ctrl) (i : Instr)
    → b ≤ b'
    → ((k : ℕ) → Pending k stack → Pending k stack')
    → OpenArg words s b' stack' (length code) i.op i.arg
    → EntriesOk (code ++ (i ∷ [])) s b' stack'
    → Open code words s stack b
    → Open (code ++ (i ∷ [])) words s stack' b'
Open-append {code} {words} {s} {b} {b'} {stack} stack' i h p ok entries o = record {
  instrs = at;
  entries = entries;
}
  where
    old :
        (k : ℕ)
        → s ≤ k
        → k < length code
        → InstrAt (code ++ (i ∷ [])) k (λ j. OpenArg words s b' stack' k j.op j.arg)
    old k lo hi =
        let (j, found, good) = o.instrs k lo hi in
        (
          j,
          get_elem?-append_left code (i ∷ []) k hi ∙ found,
          OpenArg-mono words s b b' k stack stack' j.op j.arg h (p k) good,
        )

    at :
        (k : ℕ)
        → s ≤ k
        → k < length (code ++ (i ∷ []))
        → InstrAt (code ++ (i ∷ [])) k (λ j. OpenArg words s b' stack' k j.op j.arg)
    at k lo hi = elim (ℕ_discrete k (length code)) [
      | yes e ↦
          subst (λ n. InstrAt (code ++ (i ∷ [])) n (λ j. OpenArg words s b' stack' n j.op j.arg))
            (sym e) (i, get_elem?-append_last code i, ok)
      | no n ↦ old k lo (omega (arith, length-append code (i ∷ []), n))
    ]

pub EntriesOk-append :
    (code : List Instr) (s b b' : ℕ) (stack : List Ctrl) (i : Instr)
    → b ≤ b'
    → EntriesOk code s b stack
    → EntriesOk (code ++ (i ∷ [])) s b' stack
EntriesOk-append code s b b' stack i h t =
    EntriesOk-mono code (code ++ (i ∷ [])) s b b' stack (omega (arith, length-append code (i ∷ [])))
      h (λ k lt x. (x.0, get_elem?-append_left code (i ∷ []) k lt ∙ x.1, x.2)) t

target_ok :
    (words s b v t : ℕ) (stack : List Ctrl) (op : Op)
    → IsBranch op
    → s ≤ t
    → t ≤ b
    → OpenArg words s b stack v op t
target_ok words s b v t stack branch is lo hi = inl (lo, hi)
target_ok words s b v t stack branch_if_zero is lo hi = inl (lo, hi)
target_ok words s b v t stack literal is lo hi = absurd is
target_ok words s b v t stack call_primitive is lo hi = absurd is
target_ok words s b v t stack call_word is lo hi = absurd is
target_ok words s b v t stack exit is lo hi = absurd is
target_ok words s b v t stack call_yield is lo hi = absurd is

still_pending :
    (words s b v k : ℕ) (rest : List Ctrl) (op : Op) (a : ℕ)
    → k ≢ v
    → OpenArg words s b (ctrl kind_if v ∷ rest) k op a
    → OpenArg words s b rest k op a
still_pending words s b v k rest op a ne =
    OpenArg-mono words s b b k (ctrl kind_if v ∷ rest) rest op a (omega arith) below
  where
    below : Pending k (ctrl kind_if v ∷ rest) → Pending k rest
    below (inl p) = absurd (ne (sym p.1))
    below (inr p) = p

Open-set :
    {code : List Instr} {words s b : ℕ} {rest : List Ctrl} (iv : Instr) (v t : ℕ)
    → s ≤ t
    → t ≤ b
    → v < length code
    → IsBranch iv.op
    → Open code words s (ctrl kind_if v ∷ rest) b
    → Open (set code v (record iv { arg = t })) words s rest b
Open-set {code} {words} {s} {b} {rest} iv v t lo hi inside is_branch o = record {
  instrs = instrs;
  entries =
      EntriesOk-mono code code' s b b rest (omega (arith, length-set code v iv')) (omega arith) keep
        o.entries.1;
}
  where
    iv' : Instr
    iv' = record iv { arg = t }

    code' : List Instr
    code' = set code v iv'

    here : (k : ℕ) → k ≡ v → get_elem? code' k ≡ some iv'
    here k e = rw e (get_elem?-set_self code v iv' inside)

    elsewhere : (k : ℕ) → k ≢ v → get_elem? code' k ≡ get_elem? code k
    elsewhere k ne = get_elem?-set_ne code v k iv' (λ e. ne (sym e))

    instrs :
        (k : ℕ)
        → s ≤ k
        → k < length code'
        → InstrAt code' k (λ i. OpenArg words s b rest k i.op i.arg)
    instrs k l h = elim (ℕ_discrete k v) [
      | yes e ↦ (iv', here k e, target_ok words s b k t rest iv.op is_branch lo hi)
      | no ne ↦
          let (i, found, ok) = o.instrs k l (omega (arith, length-set code v iv')) in
          (i, elsewhere k ne ∙ found, still_pending words s b v k rest i.op i.arg ne ok)
    ]

    keep :
        (k : ℕ)
        → k < length code
        → InstrAt code k (λ i. IsBranch i.op)
        → InstrAt code' k (λ i. IsBranch i.op)
    keep k l x = elim (ℕ_discrete k v) [
      | yes e ↦ (iv', here k e, is_branch)
      | no ne ↦ (x.0, elsewhere k ne ∙ x.1, x.2)
    ]

-- Patching the branch of the top entry takes the entry off.
pub Open-patch :
    {code : List Instr} {words s b : ℕ} {rest : List Ctrl} (v t : ℕ)
    → s ≤ t
    → t ≤ b
    → Open code words s (ctrl kind_if v ∷ rest) b
    → Open (patched (get_elem? code v) code v t) words s rest b
Open-patch {code} {words} {s} {b} {rest} v t lo hi o =
    let (_, inside, (iv, found, is_branch)) = o.entries.0 in
    subst (λ x. Open (patched x code v t) words s rest b) (sym found)
      (Open-set iv v t lo hi inside is_branch o)

-- With nothing pending, an exit at the end closes the definition.
pub Open-Body :
    {code : List Instr} {words s : ℕ}
    → s ≤ length code
    → Open code words s [] (length code)
    → Body (code ++ (instr exit 0 ∷ [])) words s (length code + 1)
Open-Body {code} {words} {s} h o = record { last = last; all = all }
  where
    code' : List Instr
    code' = code ++ (instr exit 0 ∷ [])

    at_end : (n : ℕ) → n ≡ length code → get_elem? code' n ≡ some (instr exit 0)
    at_end n e = rw e (get_elem?-append_last code (instr exit 0))

    last : InstrAt code' (length code + 1 - 1) (λ i. i.op ≡ exit)
    last = (instr exit 0, at_end (length code + 1 - 1) (omega arith), refl)

    closed :
        (op : Op) (k a : ℕ)
        → OpenArg words s (length code) [] k op a
        → ArgOk words s (length code + 1) op a
    closed literal k a x = x
    closed call_primitive k a x = x
    closed call_word k a x = x
    closed exit k a x = x
    closed branch k a (inl x) = omega arith
    closed branch k a (inr x) = absurd x
    closed branch_if_zero k a (inl x) = omega arith
    closed branch_if_zero k a (inr x) = absurd x
    closed call_yield k a x = x

    all :
        (k : ℕ)
        → s ≤ k
        → k < length code + 1
        → InstrAt code' k (λ i. ArgOk words s (length code + 1) i.op i.arg)
    all k lo hi = elim (ℕ_discrete k (length code)) [
      | yes e ↦ (instr exit 0, at_end k e, tt)
      | no n ↦
          let (i, found, good) = o.instrs k lo (omega (arith, n)) in
          (
            i,
            get_elem?-append_left code (instr exit 0 ∷ []) k (omega (arith, n)) ∙ found,
            closed i.op k i.arg good,
          )
    ]
