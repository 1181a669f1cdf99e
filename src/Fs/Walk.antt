-- ===== src/Fs/Walk.antt =====
-- kernel/fs/fs.c: following a path through the directory tables, mounting, and the allocator.
use rave_os.Prelude.{
  ℕ, ◌+◌, ◌-◌, Bool, true, false, List, [], ◌∷◌, ◌==◌, ltb, leb, ◌&&◌, ◌||◌, if◌then◌else◌,
}
use rave_os.Fs.Names.{char_at, rest_of, name_copy}
use rave_os.Fs.Path.{path_split, slash}
use rave_os.Fs.Disk.{
  State, Superblock, M, Result, ok, fail, ◌>>=◌, ◌>>◌, pure, guard, from_option, read_sector,
  write_sector, zero_sector, fs_magic, fs_version, total_sectors, reserved_tail, root_lba,
  data_start, superblock_lba,
}
use rave_os.Fs.Layout.{Entry, type_dir, dirtable_read, dirtable_find, entry_at, sb_write, decode_sb}

unfoldable pub lba_span_valid : ℕ → ℕ → Bool
lba_span_valid lba span =
    let limit = total_sectors - reserved_tail in
    if ltb lba data_start || leb limit lba then false else leb span (limit - lba)

-- The condition under which `walk_components` follows an entry.
abbrev pub is_dir : Entry → Bool
is_dir e = e.kind == type_dir && lba_span_valid e.start_lba 1

unfoldable pub walk_components : List (List ℕ) → ℕ → M ℕ
unfolding dirtable_read dirtable_find lba_span_valid
walk_components [] table_lba = pure table_lba
walk_components (c ∷ cs) table_lba = do
  entries ← dirtable_read table_lba
  slot ← from_option (dirtable_find entries c)
  let e = entry_at entries slot
  guard (is_dir e)
  walk_components cs e.start_lba

-- The components before the last one, and the last one.
unfoldable pub split_last : List (List ℕ) → List (List ℕ) × List ℕ
split_last [] = ([], [])
split_last (c ∷ []) = ([], c)
split_last (c ∷ (d ∷ ds)) = let r = split_last (d ∷ ds) in (c ∷ r.0, r.1)

-- The leaf's name and the table that should hold it.
unfoldable pub walk_to_parent : List ℕ → M (List ℕ × ℕ)
unfolding path_split walk_components split_last name_copy
walk_to_parent path = do
  components ← from_option (path_split path)
  table_lba ← walk_components (split_last components).0 root_lba
  pure (name_copy (split_last components).1, table_lba)

-- The path is "/".
abbrev pub names_root : List ℕ → Bool
names_root path = char_at path == slash && char_at (rest_of path) == 0

unfoldable pub resolve_dir_lba : List ℕ → M ℕ
unfolding path_split walk_components
resolve_dir_lba path =
    if names_root path
    then pure root_lba
    else do components ← from_option (path_split path); walk_components components root_lba

abbrev pub fresh_sb : Superblock
fresh_sb = record {
  magic = fs_magic;
  version = fs_version;
  total = total_sectors;
  next_free = data_start;
}

-- The condition under which `fs_init` keeps the superblock that it has read.
unfoldable pub sb_trusted : Superblock → Bool
sb_trusted sb =
    sb.magic == fs_magic
    && (sb.version == fs_version
        && (sb.total == total_sectors
            && (leb data_start sb.next_free && leb sb.next_free (total_sectors - reserved_tail))))

-- What `sb` holds after the read: unchanged if the read failed.
abbrev pub loaded_sb : Result (List ℕ) × State → State
loaded_sb (ok b, s) = record s { sb = decode_sb b }
loaded_sb (fail, s) = s

abbrev pub read_ok : {A : Type 0} → Result A × State → Bool
read_ok (ok a, s) = true
read_ok (fail, s) = false

-- The superblock and an empty root table; the results of both writes are ignored.
unfoldable pub format : State → State
unfolding sb_write write_sector
format s = (write_sector root_lba zero_sector (sb_write (record s { sb = fresh_sb })).1).1

unfoldable pub fs_init : State → State
unfolding read_sector format sb_trusted decode_sb
fs_init s =
    let r = read_sector superblock_lba s in
    let loaded = loaded_sb r in
    let s' = if read_ok r && sb_trusted loaded.sb then loaded else format loaded in
    record s' { mounted = true }

-- `if (!mounted) fs_init();`
unfoldable pub ensure_mounted : M (Unit {0})
unfolding fs_init
ensure_mounted s = (ok tt, if s.mounted then s else fs_init s)

abbrev pub with_next_free : State → ℕ → State
with_next_free s lba = record s { sb = record (s.sb) { next_free = lba } }

-- `fail` is the return value 0xFFFFFFFF, on which every caller returns -1.
unfoldable pub alloc_sectors : ℕ → M ℕ
unfolding lba_span_valid sb_write
alloc_sectors count s =
    let lba = s.sb.next_free in
    if lba_span_valid lba count
    then (ok lba, (sb_write (with_next_free s (lba + count))).1)
    else (fail, s)
