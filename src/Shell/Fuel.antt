-- ===== src/Shell/Fuel.antt =====
-- kernel/gui/shell.c: the rounds of `shell_case_correct`.
use rave_os.Prelude.{
  if_both, if_both, ℕ, zero, suc, ◌-◌, ◌≤◌, Bool, List, [], ◌∷◌, ◌==◌, ◌&&◌, not, if◌then◌else◌,
  length, ◌≡◌, inl, inr, refl, ap, Bool-cases, arith,
}
use mathlib.Core.Path.{fun_ext}
use rave_os.Fs.Names.{name_max, rest_of}
use rave_os.Fs.Path.{slash, skip_slash}
use rave_os.Fs.Disk.{
  Result, ok, fail, and_then, ok, and_then, Result, State, M, ◌>>=◌, pure, from_option,
}
use rave_os.Fs.Listing.{list_dir}
use rave_os.Shell.Paths.{
  Tail, whole, out_of_fuel, kept, kept, Tail, list_max, case_correct, correct_from, corrected,
  read_component, is_empty, match_name, push_name,
}

read_component-length :
    (room : ℕ) (path : List ℕ) → length (read_component room path).1 ≤ length path
unfolding read_component
read_component-length zero path = omega arith
read_component-length (suc room) [] = omega arith
read_component-length (suc room) (c ∷ cs) =
    let ih = read_component-length room cs in
    elim (Bool-cases (c == slash)) [ inl e ↦ rw e (omega arith) | inr e ↦ rw e (omega arith) ]

skip_slash-length : (path : List ℕ) → length (skip_slash path) ≤ length path
skip_slash-length [] = omega arith
skip_slash-length (c ∷ cs) = elim (Bool-cases (c == slash)) [
  | inl e ↦ rw e (omega arith)
  | inr e ↦ rw e (omega arith)
]

-- A round uses at least one character.
pub round-length :
    (c : ℕ) (cs : List ℕ)
    → length (skip_slash (read_component (name_max - 1) (c ∷ cs)).1) ≤ length cs
unfolding read_component
round-length c cs = elim (Bool-cases (c == slash)) [
  | inl e ↦ rw (e, e) (omega arith)
  | inr e ↦ rw e (
      let used = read_component-length (name_max - 2) cs in
      let skipped = skip_slash-length (read_component (name_max - 2) cs).1 in omega arith)
]

pub rest_of-length : (path : List ℕ) → length (rest_of path) ≤ length path
rest_of-length [] = omega arith
rest_of-length (c ∷ cs) = omega arith

-- The loop has not run out of its fuel.
abbrev pub IsEnded : Tail → Type 0
IsEnded whole = Unit {0}
IsEnded out_of_fuel = ⊥
IsEnded (kept tail) = Unit {0}

-- A failure of the C function is an end too.
abbrev pub Ended : Result (List ℕ × Tail) → Type 0
Ended (ok r) = IsEnded r.1
Ended fail = Unit {0}

abbrev EndedAfter : State → M (List ℕ × Tail) → Type 0
EndedAfter s m = Ended (m s).0

and_then-Ended :
    {A : Type 0} (r : Result A × State) (f : A → M (List ℕ × Tail))
    → ((a : A) (s : State) → EndedAfter s (f a))
    → Ended (and_then r f).0
and_then-Ended (ok a, s) f h = h a s
and_then-Ended (fail, s) f h = tt

correct_from-Ended :
    (fuel : ℕ) (last : Bool) (resolved path : List ℕ) (s : State)
    → length path ≤ fuel
    → Ended (correct_from fuel last resolved path s).0
unfolding correct_from
correct_from-Ended zero last resolved [] s le = tt
correct_from-Ended zero last resolved (c ∷ cs) s le = absurd (omega arith)
correct_from-Ended (suc fuel) last resolved [] s le = tt
correct_from-Ended (suc fuel) last resolved (c ∷ cs) s le =
    let parts = read_component (name_max - 1) (c ∷ cs) in
    let short : length (skip_slash parts.1) ≤ fuel = omega (arith, round-length c cs) in
    if_both (EndedAfter s) (is_empty parts.0)
      (correct_from-Ended fuel last resolved (skip_slash parts.1) s short)
      (if_both (EndedAfter s) (is_empty parts.1 && not last) tt (
        and_then-Ended (list_dir resolved list_max s) _ (λ entries s'.
          and_then-Ended (from_option (match_name parts.0 entries) s') _ (λ name s''.
            correct_from-Ended fuel last (push_name resolved name) (skip_slash parts.1) s''
              short))))

-- One round, with what the following rounds do.
abbrev round : Bool → List ℕ → List ℕ → (List ℕ → M (List ℕ × Tail)) → M (List ℕ × Tail)
round last resolved path later =
    let parts = read_component (name_max - 1) path in
    if is_empty parts.0
    then later resolved
    else if is_empty parts.1 && not last
    then pure (resolved, kept parts.0)
    else (list_dir resolved list_max >>= λ entries.
        from_option (match_name parts.0 entries) >>= λ name. later (push_name resolved name))

correct_from-enough :
    (fuel more : ℕ) (last : Bool) (resolved path : List ℕ)
    → length path ≤ fuel
    → length path ≤ more
    → correct_from fuel last resolved path ≡ correct_from more last resolved path
unfolding correct_from
correct_from-enough zero zero last resolved path h k = refl
correct_from-enough zero (suc more) last resolved [] h k = refl
correct_from-enough zero (suc more) last resolved (c ∷ cs) h k = absurd (omega arith)
correct_from-enough (suc fuel) zero last resolved [] h k = refl
correct_from-enough (suc fuel) zero last resolved (c ∷ cs) h k = absurd (omega arith)
correct_from-enough (suc fuel) (suc more) last resolved [] h k = refl
correct_from-enough (suc fuel) (suc more) last resolved (c ∷ cs) h k =
    let rest = skip_slash (read_component (name_max - 1) (c ∷ cs)).1 in
    let short = round-length c cs in
    ap (round last resolved (c ∷ cs))
      (fun_ext (λ to. correct_from-enough fuel more last to rest (omega arith) (omega arith)))

same_result :
    (fuel cap : ℕ) (last : Bool) (path : List ℕ) (s : State)
    → length path ≤ fuel
    → (let r = correct_from fuel last (slash ∷ []) (rest_of path) s in
        (corrected cap path r.0, r.1))
      ≡ case_correct cap last path s
unfolding case_correct
same_result fuel cap last path s h =
    ap (λ m. (corrected cap path (m s).0, (m s).1))
      (correct_from-enough fuel (length path) last (slash ∷ []) (rest_of path)
        (omega (arith, rest_of-length path)) (rest_of-length path))

-- With a round for each character of the path, or more, the loop of `shell_case_correct` ends, whatever
-- the filesystem holds and whatever transfers fail, and the result and the filesystem are those of
-- `shell_case_correct`: it does not run for ever.
pub case_correct-enough :
    (fuel cap : ℕ) (last : Bool) (path : List ℕ) (s : State)
    → length path ≤ fuel
    → (let r = correct_from fuel last (slash ∷ []) (rest_of path) s in
        Ended r.0 × ((corrected cap path r.0, r.1) ≡ case_correct cap last path s))
case_correct-enough fuel cap last path s h =
    let enough : length (rest_of path) ≤ fuel = omega (arith, rest_of-length path) in
    (
      correct_from-Ended fuel last (slash ∷ []) (rest_of path) s enough,
      same_result fuel cap last path s h,
    )
