-- ===== src/Shell/Paths.antt =====
-- kernel/gui/shell.c: resolving a path argument, with the case of its components corrected.
use rave_os.Prelude.{
  ℕ, zero, suc, ◌-◌, Bool, true, false, Option, none, some, List, [], ◌∷◌, ◌++◌, ◌==◌, ltb, ◌&&◌,
  not, if◌then◌else◌, length,
}
use rave_os.Fs.Names.{name_max, char_at, rest_of, copy_chars}
use rave_os.Fs.Path.{slash, path_join, path_parent, skip_slash}
use rave_os.Fs.Disk.{State, Result, ok, fail, M, ◌>>=◌, pure, from_option}
use rave_os.Fs.Listing.{Dirent, list_dir}
use rave_os.Shell.Line.{append, upper}

-- FS_PATH_MAX, FS_LIST_MAX
abbrev pub path_max : ℕ
path_max = 80

abbrev pub list_max : ℕ
list_max = 21

-- `struct shell`
pub record Shell : Type 0 where
  pub cwd : List ℕ

abbrev pub dot : ℕ
dot = b'.'

-- `shell_resolve`
unfoldable pub resolve : Shell → List ℕ → ℕ → List ℕ
unfolding append path_parent path_join
resolve sh arg cap =
    let second = char_at (rest_of arg) in
    if char_at arg == slash
    then append cap [] arg
    else if char_at arg == dot && (second == dot && char_at (rest_of (rest_of arg)) == 0)
    then path_parent (append cap [] sh.cwd)
    else if char_at arg == dot && second == 0
    then append cap [] sh.cwd
    else path_join cap sh.cwd arg

-- The loops of `shell_name_eq` and `shell_name_eq_ci` over two NUL-terminated strings, with `fold`
-- applied to each character.
unfoldable pub eq_by : (ℕ → ℕ) → List ℕ → List ℕ → Bool
eq_by fold [] b = char_at b == 0
eq_by fold (a ∷ more) [] = a == 0
eq_by fold (a ∷ more) (b ∷ bs) =
    let rest = eq_by fold more bs in
    if a == 0 then b == 0 else if b == 0 then false else if fold a == fold b then rest else false

abbrev pub same : ℕ → ℕ
same c = c

-- `shell_name_eq` and `shell_name_eq_ci`
unfoldable pub name_eq : List ℕ → List ℕ → Bool
unfolding eq_by
name_eq a b = eq_by same a b

unfoldable pub name_eq_ci : List ℕ → List ℕ → Bool
unfolding eq_by
name_eq_ci a b = eq_by upper a b

-- One pass over the entries.
unfoldable pub first_match : (List ℕ → Bool) → List Dirent → Option (List ℕ)
first_match test [] = none
first_match test (e ∷ es) =
    let rest = first_match test es in if test e.name then some e.name else rest

abbrev pub or_else : Option (List ℕ) → Option (List ℕ) → Option (List ℕ)
or_else none second = second
or_else (some name) second = some name

unfoldable pub match_name : List ℕ → List Dirent → Option (List ℕ)
unfolding first_match name_eq name_eq_ci
match_name component entries =
    or_else (first_match (λ name. name_eq name component) entries)
      (first_match (λ name. name_eq_ci name component) entries)

-- A matched name goes at the end of `resolved`, whose last byte stays for the NUL.
unfoldable pub push_name : List ℕ → List ℕ → List ℕ
unfolding copy_chars
push_name resolved name =
    let base = if ltb 1 (length resolved) then resolved ++ (slash ∷ []) else resolved in
    base ++ copy_chars (path_max - 1 - length base) name

-- Up to `room` characters of a component, and what follows them.
unfoldable pub read_component : ℕ → List ℕ → List ℕ × List ℕ
read_component zero path = ([], path)
read_component (suc room) [] = ([], [])
read_component (suc room) (c ∷ cs) =
    let rest = read_component room cs in if c == slash then ([], c ∷ cs) else (c ∷ rest.0, rest.1)

abbrev pub is_empty : List ℕ → Bool
is_empty [] = true
is_empty (c ∷ cs) = false

-- How the outer loop of `shell_case_correct` ends: with the whole path read, with a last component that
-- stays as it is, or not within its fuel.
pub data Tail : Type 0 where
  whole out_of_fuel : Tail
  kept : List ℕ → Tail

-- That loop: `resolved` and how it ended, or a failure where the C function returns. Each round uses one
-- unit of fuel.
unfoldable pub correct_from : ℕ → Bool → List ℕ → List ℕ → M (List ℕ × Tail)
unfolding read_component list_dir match_name push_name
correct_from fuel correct_last resolved [] = pure (resolved, whole)
correct_from zero correct_last resolved (c ∷ cs) = pure (resolved, out_of_fuel)
correct_from (suc fuel) correct_last resolved (c ∷ cs) =
    let read = read_component (name_max - 1) (c ∷ cs) in
    if is_empty read.0
    then correct_from fuel correct_last resolved (skip_slash read.1)
    else if is_empty read.1 && not correct_last
    then pure (resolved, kept read.0)
    else (list_dir resolved list_max >>= λ entries.
        from_option (match_name read.0 entries) >>= λ name.
        correct_from fuel correct_last (push_name resolved name) (skip_slash read.1))

-- What is written back to `path`; a loop that does not end writes nothing back.
unfoldable pub rewritten : ℕ → List ℕ × Tail → List ℕ
unfolding append
rewritten cap (resolved, out_of_fuel) = []
rewritten cap (resolved, whole) = append cap [] resolved
rewritten cap (resolved, kept tail) =
    let base = append cap [] resolved in
    let is_root = char_at resolved == slash && char_at (rest_of resolved) == 0 in
    append cap (if is_root then base else append cap base (slash ∷ [])) tail

abbrev pub corrected : ℕ → List ℕ → Result (List ℕ × Tail) → List ℕ
corrected cap path (ok r) = rewritten cap r
corrected cap path fail = path

-- `shell_case_correct`
unfoldable pub case_correct : ℕ → Bool → List ℕ → State → List ℕ × State
unfolding correct_from rewritten
case_correct cap correct_last path s =
    let r = correct_from (length path) correct_last (slash ∷ []) (rest_of path) s in
    (corrected cap path r.0, r.1)

-- `shell_resolve_path`, with the choice that its other callers in this file make.
unfoldable pub resolve_as : Bool → Shell → List ℕ → State → List ℕ × State
unfolding resolve case_correct
resolve_as correct_last sh arg s = case_correct path_max correct_last (resolve sh arg path_max) s
