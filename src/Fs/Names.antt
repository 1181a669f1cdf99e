-- ===== src/Fs/Names.antt =====
-- kernel/fs/fs.c: the string primitives of the filesystem. A string or a name buffer is a list of
-- characters; a read at or past its end gives the terminating NUL.
use rave_os.Prelude.{
  ℕ, zero, suc, ◌-◌, Bool, true, false, List, [], ◌∷◌, ◌++◌, ◌==◌, if◌then◌else◌, replicate, codes,
  length,
}

-- FS_NAME_MAX
abbrev pub name_max : ℕ
name_max = 16

-- FS_DEV_NAME
abbrev pub dev_name : List ℕ
dev_name = codes "DEV"

abbrev pub char_at : List ℕ → ℕ
char_at [] = 0
char_at (c ∷ cs) = c

abbrev pub rest_of : List ℕ → List ℕ
rest_of [] = []
rest_of (c ∷ cs) = cs

-- The loop of `str_eq` with `n` rounds left.
unfoldable pub str_eq_from : ℕ → List ℕ → List ℕ → Bool
str_eq_from zero a b = true
str_eq_from (suc n) a b =
    let rest = str_eq_from n (rest_of a) (rest_of b) in
    if char_at a == char_at b then if char_at a == 0 then true else rest else false

unfoldable pub str_eq : List ℕ → List ℕ → Bool
unfolding str_eq_from
str_eq a b = str_eq_from name_max a b

-- The first loop of `name_copy` with `n` rounds left.
unfoldable pub copy_chars : ℕ → List ℕ → List ℕ
copy_chars zero src = []
copy_chars (suc n) [] = []
copy_chars (suc n) (c ∷ src) = let rest = copy_chars n src in if c == 0 then [] else c ∷ rest

-- The whole of the FS_NAME_MAX bytes that `name_copy` leaves in `dst`.
unfoldable pub name_copy : List ℕ → List ℕ
unfolding copy_chars
name_copy src =
    let chars = copy_chars (name_max - 1) src in chars ++ replicate (name_max - length chars) 0
