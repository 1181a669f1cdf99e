-- ===== src/Fs/Path.antt =====
-- kernel/fs/fs.c: splitting, joining and shortening paths.
use rave_os.Prelude.{
  ℕ, zero, suc, ◌+◌, ◌-◌, Option, none, some, List, [], ◌∷◌, ◌++◌, ◌==◌, leb, if◌then◌else◌, take,
  length, ◌&&◌,
}
use rave_os.Fs.Names.{name_max, char_at, rest_of}

abbrev pub slash : ℕ
slash = b'/'

-- FS_MAX_PATH_DEPTH
abbrev pub max_path_depth : ℕ
max_path_depth = 4

infixl 5 ◌>>=◌
abbrev pub ◌>>=◌ : {A B : Type 0} → Option A → (A → Option B) → Option B
none >>= f = none
some a >>= f = f a

-- The inner loop: the characters up to the next slash, and what follows them. `j` characters of
-- the component are stored already.
unfoldable pub take_component : ℕ → List ℕ → Option (List ℕ × List ℕ)
take_component j [] = some ([], [])
take_component j (c ∷ cs) =
    let rest = take_component (j + 1) cs in
    if c == slash
    then some ([], c ∷ cs)
    else if leb (name_max - 1) j
    then none
    else rest >>= λ r. some (c ∷ r.0, r.1)

abbrev pub skip_slash : List ℕ → List ℕ
skip_slash [] = []
skip_slash (c ∷ cs) = if c == slash then cs else c ∷ cs

abbrev pub non_empty : List ℕ → Option (List ℕ)
non_empty [] = none
non_empty (c ∷ cs) = some (c ∷ cs)

-- The outer loop with room for `n` more components.
unfoldable pub split_from : ℕ → List ℕ → Option (List (List ℕ))
split_from n [] = some []
split_from zero (c ∷ cs) = none
split_from (suc n) (c ∷ cs) = take_component 0 (c ∷ cs) >>= λ r.
    non_empty r.0 >>= λ name. split_from n (skip_slash r.1) >>= λ names. some (name ∷ names)

abbrev pub some_names : List (List ℕ) → Option (List (List ℕ))
some_names [] = none
some_names (n ∷ ns) = some (n ∷ ns)

unfoldable pub path_split : List ℕ → Option (List (List ℕ))
unfolding split_from take_component
path_split path =
    if char_at path == slash then split_from max_path_depth (rest_of path) >>= some_names else none

-- `path_append`: what `dst` holds afterwards, when it held `dst` with the cursor at its end.
unfoldable pub path_append : ℕ → List ℕ → List ℕ → List ℕ
path_append cap dst src = if leb cap 0 then dst else dst ++ take (cap - 1 - length dst) src

unfoldable pub path_join : ℕ → List ℕ → List ℕ → List ℕ
unfolding path_append
path_join cap cwd name =
    let cwd_is_root = char_at cwd == slash && char_at (rest_of cwd) == 0 in
    let base = if cwd_is_root then [] else path_append cap [] cwd in
    path_append cap (path_append cap base (slash ∷ [])) name

-- The scan of `fs_path_parent` from position `i`, with the last slash seen so far.
unfoldable pub last_slash_from : ℕ → Option ℕ → List ℕ → Option ℕ
last_slash_from i seen [] = seen
last_slash_from i seen (c ∷ cs) = last_slash_from (i + 1) (if c == slash then some i else seen) cs

unfoldable pub cut_at : Option ℕ → List ℕ → List ℕ
cut_at none cwd = slash ∷ []
cut_at (some zero) cwd = slash ∷ []
cut_at (some (suc i)) cwd = take (suc i) cwd

unfoldable pub path_parent : List ℕ → List ℕ
unfolding last_slash_from cut_at
path_parent cwd = cut_at (last_slash_from 0 none cwd) cwd
