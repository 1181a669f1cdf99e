-- ===== src/Shell/Rooted.antt =====
-- kernel/gui/shell.c: the paths that its commands hand to the filesystem.
use rave_os.Prelude.{
  ◌≤◌, ℕ, zero, suc, ◌-◌, ◌<◌, Bool, true, Option, none, some, List, [], ◌∷◌, ◌++◌, ◌==◌, ◌&&◌, not,
  ltb, leb, take, length, length-append, length-take, ◌≡◌, inl, inr, refl, sym, subst, Bool-cases,
  if_both, arith,
}
use rave_os.Fs.Names.{name_max, char_at, rest_of, copy_chars}
use rave_os.Fs.Path.{
  slash, path_append, path_join, path_parent, cut_at, last_slash_from, skip_slash,
}
use rave_os.Fs.Disk.{State, Result, ok, fail, M, and_then, from_option}
use rave_os.Fs.Listing.{list_dir}
use rave_os.Shell.Line.{append}
use rave_os.Shell.Fuel.{IsEnded, round-length, rest_of-length}
use rave_os.Shell.Paths.{
  Tail, whole, out_of_fuel, kept, dot, Shell, path_max, list_max, resolve, resolve_as, case_correct,
  correct_from, corrected, rewritten, read_component, is_empty, match_name, push_name,
}

-- A string with its NUL fits a buffer of `cap` bytes.
abbrev pub IsWithin : ℕ → List ℕ → Type 0
IsWithin cap s = length s < cap

-- An absolute path.
abbrev pub IsRooted : List ℕ → Type 0
IsRooted s = char_at s ≡ slash

pub append-IsWithin :
    (cap : ℕ) (dst src : List ℕ) → IsWithin cap dst → IsWithin cap (append cap dst src)
unfolding append
append-IsWithin cap dst src h =
    let joined = length-append dst (take (cap - 1 - length dst) src) in
    let taken = length-take (cap - 1 - length dst) src in ground arith

append-IsRooted : (cap : ℕ) (dst src : List ℕ) → IsRooted dst → IsRooted (append cap dst src)
unfolding append
append-IsRooted cap [] src h = absurd (omega arith)
append-IsRooted cap (c ∷ dst) src h = if_both IsRooted (leb cap 0) h h

pub copied-IsRooted : (src : List ℕ) → IsRooted src → IsRooted (append path_max [] src)
unfolding append
copied-IsRooted [] h = absurd (omega arith)
copied-IsRooted (c ∷ src) h = h

path_append-append : (cap : ℕ) (dst src : List ℕ) → path_append cap dst src ≡ append cap dst src
unfolding path_append append
path_append-append cap dst src = refl

path_append-IsRooted :
    (cap : ℕ) (dst src : List ℕ) → IsRooted dst → IsRooted (path_append cap dst src)
path_append-IsRooted cap dst src h =
    subst IsRooted (sym (path_append-append cap dst src)) (append-IsRooted cap dst src h)

path_join-IsRooted : (cwd name : List ℕ) → IsRooted cwd → IsRooted (path_join path_max cwd name)
unfolding path_join
path_join-IsRooted cwd name h =
    if_both
      (λ (base : List ℕ).
        IsRooted (path_append path_max (path_append path_max base (slash ∷ [])) name))
      (char_at cwd == slash && char_at (rest_of cwd) == 0)
      (path_append-IsRooted path_max (path_append path_max [] (slash ∷ [])) name root)
      (path_append-IsRooted path_max
        (path_append path_max (path_append path_max [] cwd) (slash ∷ [])) name
        (path_append-IsRooted path_max (path_append path_max [] cwd) (slash ∷ []) base))
  where
    root : IsRooted (path_append path_max [] (slash ∷ []))
    root =
        subst IsRooted (sym (path_append-append path_max [] (slash ∷ [])))
          (copied-IsRooted (slash ∷ []) refl)

    base : IsRooted (path_append path_max [] cwd)
    base = subst IsRooted (sym (path_append-append path_max [] cwd)) (copied-IsRooted cwd h)

path_parent-IsRooted : (cwd : List ℕ) → IsRooted cwd → IsRooted (path_parent cwd)
unfolding path_parent cut_at
path_parent-IsRooted [] h = absurd (omega arith)
path_parent-IsRooted (c ∷ cwd) h = cut (last_slash_from 0 none (c ∷ cwd))
  where
    cut : (at : Option ℕ) → IsRooted (cut_at at (c ∷ cwd))
    cut none = refl
    cut (some zero) = refl
    cut (some (suc i)) = h

eq_of_== : (a b : ℕ) → (a == b) ≡ true → a ≡ b
eq_of_== a b e = ground arith

resolve-IsRooted :
    (sh : Shell) (arg : List ℕ) → IsRooted sh.cwd → IsRooted (resolve sh arg path_max)
unfolding resolve
resolve-IsRooted sh arg h = elim (Bool-cases (char_at arg == slash)) [
  | inl e ↦ rw e (copied-IsRooted arg (eq_of_== (char_at arg) slash e))
  | inr e ↦ rw e (
      if_both IsRooted
        (char_at arg == dot && (second == dot && char_at (rest_of (rest_of arg)) == 0))
        (path_parent-IsRooted (append path_max [] sh.cwd) (copied-IsRooted sh.cwd h))
        (if_both IsRooted (char_at arg == dot && second == 0) (copied-IsRooted sh.cwd h)
          (path_join-IsRooted sh.cwd arg h)))
]
  where
    second : ℕ
    second = char_at (rest_of arg)

push_name-IsRooted :
    (resolved name : List ℕ) → IsRooted resolved → IsRooted (push_name resolved name)
unfolding push_name
push_name-IsRooted [] name h = absurd (omega arith)
push_name-IsRooted (c ∷ resolved) name h =
    if_both (λ (base : List ℕ). IsRooted (base ++ copy_chars (path_max - 1 - length base) name))
      (ltb 1 (length (c ∷ resolved))) h h

-- What the loop of `shell_case_correct` hands on.
abbrev RootedResult : Result (List ℕ × Tail) → Type 0
RootedResult (ok r) = IsRooted r.0 × IsEnded r.1
RootedResult fail = Unit {0}

abbrev RootedAfter : State → M (List ℕ × Tail) → Type 0
RootedAfter s m = RootedResult (m s).0

and_then-Rooted :
    {A : Type 0} (r : Result A × State) (f : A → M (List ℕ × Tail))
    → ((a : A) (s : State) → RootedAfter s (f a))
    → RootedResult (and_then r f).0
and_then-Rooted (ok a, s) f h = h a s
and_then-Rooted (fail, s) f h = tt

correct_from-Rooted :
    (fuel : ℕ) (last : Bool) (resolved path : List ℕ) (s : State)
    → length path ≤ fuel
    → IsRooted resolved
    → RootedResult (correct_from fuel last resolved path s).0
unfolding correct_from
correct_from-Rooted zero last resolved [] s le h = (h, tt)
correct_from-Rooted zero last resolved (c ∷ cs) s le h = absurd (omega arith)
correct_from-Rooted (suc fuel) last resolved [] s le h = (h, tt)
correct_from-Rooted (suc fuel) last resolved (c ∷ cs) s le h =
    let short : length (skip_slash (read_component (name_max - 1) (c ∷ cs)).1) ≤ fuel =
      omega (arith, round-length c cs) in
    let parts = read_component (name_max - 1) (c ∷ cs) in
    if_both (RootedAfter s) (is_empty parts.0)
      (correct_from-Rooted fuel last resolved (skip_slash parts.1) s short h)
      (if_both (RootedAfter s) (is_empty parts.1 && not last) (h, tt)
        (and_then-Rooted (list_dir resolved list_max s) _ (λ entries s'.
          and_then-Rooted (from_option (match_name parts.0 entries) s') _ (λ name s''.
            correct_from-Rooted fuel last (push_name resolved name) (skip_slash parts.1) s'' short
              (push_name-IsRooted resolved name h)))))

rewritten-IsRooted :
    (r : List ℕ × Tail) → IsRooted r.0 → IsEnded r.1 → IsRooted (rewritten path_max r)
unfolding rewritten
rewritten-IsRooted (resolved, out_of_fuel) h e = absurd e
rewritten-IsRooted (resolved, whole) h e = copied-IsRooted resolved h
rewritten-IsRooted (resolved, kept tail) h e =
    let base = copied-IsRooted resolved h in
    if_both (λ (dst : List ℕ). IsRooted (append path_max dst tail))
      (char_at resolved == slash && char_at (rest_of resolved) == 0)
      (append-IsRooted path_max (append path_max [] resolved) tail base)
      (append-IsRooted path_max (append path_max (append path_max [] resolved) (slash ∷ [])) tail
        (append-IsRooted path_max (append path_max [] resolved) (slash ∷ []) base))

corrected-IsRooted :
    (path : List ℕ) (r : Result (List ℕ × Tail))
    → IsRooted path
    → RootedResult r
    → IsRooted (corrected path_max path r)
corrected-IsRooted path (ok r) h k = rewritten-IsRooted r k.0 k.1
corrected-IsRooted path fail h k = h

pub resolve_as-IsRooted :
    (last : Bool) (sh : Shell) (arg : List ℕ) (s : State)
    → IsRooted sh.cwd
    → IsRooted (resolve_as last sh arg s).0
unfolding resolve_as case_correct
resolve_as-IsRooted last sh arg s h =
    let path = resolve sh arg path_max in
    corrected-IsRooted path (correct_from (length path) last (slash ∷ []) (rest_of path) s).0
      (resolve-IsRooted sh arg h)
      (correct_from-Rooted (length path) last (slash ∷ []) (rest_of path) s (rest_of-length path)
        refl)
