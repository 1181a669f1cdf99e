-- ===== src/Fs/Layout.antt =====
-- kernel/fs/fs.c: the on-disk records, `struct fs_superblock` and `struct fs_entry`, both packed,
-- and the directory tables made of entries.
use rave_os.Prelude.{
  ℕ, zero, suc, ◌%◌, Bool, Option, none, some, List, [], ◌∷◌, ◌++◌, ◌==◌, if◌then◌else◌, take, drop,
  get_or, replicate, ◌+◌,
}
use rave_os.Fs.Names.{name_max, char_at, str_eq}
use rave_os.Fs.Disk.{
  Superblock, M, ok, ◌>>=◌, pure, read_sector, write_sector, pad, le32, get32, superblock_lba,
}

-- FS_MAX_FILES
abbrev pub max_files : ℕ
max_files = 20

-- FS_TYPE_FILE
abbrev pub type_file : ℕ
type_file = 0

-- FS_TYPE_DIR
abbrev pub type_dir : ℕ
type_dir = 1

-- `struct fs_entry`; `kind` is its field `type`.
pub record Entry : Type 0 where
  pub name : List ℕ
  pub start_lba : ℕ
  pub size_bytes : ℕ
  pub kind : ℕ

abbrev pub empty_entry : Entry
empty_entry = record { name = replicate name_max 0; start_lba = 0; size_bytes = 0; kind = 0 }

-- sizeof(struct fs_entry)
abbrev pub entry_size : ℕ
entry_size = 25

unfoldable pub encode_entry : Entry → List ℕ
unfolding le32
encode_entry e = e.name ++ (le32 e.start_lba ++ (le32 e.size_bytes ++ (e.kind % 256 ∷ [])))

unfoldable pub decode_entry : List ℕ → Entry
unfolding get32
decode_entry b = record {
  name = take name_max b;
  start_lba = get32 (drop name_max b);
  size_bytes = get32 (drop (name_max + 4) b);
  kind = get_or (drop (name_max + 8) b) 0 0;
}

unfoldable pub encode_entries : List Entry → List ℕ
unfolding encode_entry
encode_entries [] = []
encode_entries (e ∷ es) = encode_entry e ++ encode_entries es

unfoldable pub decode_entries : ℕ → List ℕ → List Entry
unfolding decode_entry
decode_entries zero b = []
decode_entries (suc n) b = decode_entry b ∷ decode_entries n (drop entry_size b)

unfoldable pub dirtable_read : ℕ → M (List Entry)
unfolding read_sector decode_entries
dirtable_read lba = do b ← read_sector lba; pure (decode_entries max_files b)

unfoldable pub dirtable_write : ℕ → List Entry → M (Unit {0})
unfolding write_sector encode_entries pad
dirtable_write lba entries = write_sector lba (pad (encode_entries entries))

unfoldable pub encode_sb : Superblock → List ℕ
unfolding le32
encode_sb sb = le32 sb.magic ++ (le32 sb.version ++ (le32 sb.total ++ le32 sb.next_free))

unfoldable pub decode_sb : List ℕ → Superblock
unfolding get32
decode_sb b = record {
  magic = get32 b;
  version = get32 (drop 4 b);
  total = get32 (drop 8 b);
  next_free = get32 (drop 12 b);
}

-- `sb_write`, which ignores the transfer's result.
unfoldable pub sb_write : M (Unit {0})
unfolding write_sector encode_sb pad
sb_write s = (ok tt, (write_sector superblock_lba (pad (encode_sb s.sb)) s).1)

-- `name[0] == 0`
abbrev pub is_free : Entry → Bool
is_free e = char_at e.name == 0

-- The loop of `dirtable_find` from index `i`.
unfoldable pub find_from : ℕ → List Entry → List ℕ → Option ℕ
find_from i [] name = none
find_from i (e ∷ es) name =
    let rest = find_from (i + 1) es name in
    if is_free e then rest else if str_eq e.name name then some i else rest

unfoldable pub dirtable_find : List Entry → List ℕ → Option ℕ
unfolding find_from str_eq
dirtable_find entries name = find_from 0 entries name

-- The loop of `dirtable_find_free` from index `i`.
unfoldable pub find_free_from : ℕ → List Entry → Option ℕ
find_free_from i [] = none
find_free_from i (e ∷ es) =
    let rest = find_free_from (i + 1) es in if is_free e then some i else rest

unfoldable pub dirtable_find_free : List Entry → Option ℕ
unfolding find_free_from
dirtable_find_free entries = find_free_from 0 entries

-- `entries[slot]`
abbrev pub entry_at : List Entry → ℕ → Entry
entry_at entries slot = get_or entries slot empty_entry
