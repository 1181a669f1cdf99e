-- ===== src/Fs/Manage.antt =====
-- kernel/fs/fs.c: deleting, renaming, moving and copying entries.
use rave_os.Prelude.{
  ℕ, zero, suc, ◌+◌, ◌-◌, Bool, true, false, Option, none, some, List, [], ◌∷◌, ◌==◌, leb, not,
  ◌&&◌, ◌||◌, if◌then◌else◌, set,
}
use rave_os.Fs.Names.{name_max, str_eq, name_copy, char_at}
use rave_os.Fs.Path.{slash}
use rave_os.Fs.Disk.{M, ◌>>=◌, ◌>>◌, pure, guard, from_option, read_sector, write_sector}
use rave_os.Fs.Layout.{
  Entry, empty_entry, type_file, type_dir, is_free, dirtable_read, dirtable_write, dirtable_find,
  entry_at,
}
use rave_os.Fs.Walk.{lba_span_valid, walk_to_parent, resolve_dir_lba, ensure_mounted, alloc_sectors}
use rave_os.Fs.Files.{is_reserved, sectors_for, free_slot, file_entry}

unfoldable pub all_free : List Entry → Bool
all_free [] = true
all_free (e ∷ es) = is_free e && all_free es

-- A directory's own table is in range and holds no entry.
unfoldable pub check_empty : Entry → M (Unit {0})
unfolding lba_span_valid dirtable_read all_free
check_empty e = do
  guard (lba_span_valid e.start_lba 1)
  sub_entries ← dirtable_read e.start_lba
  guard (all_free sub_entries)

-- `fs_delete` from the point where the entry is found.
unfoldable pub delete_at : ℕ → List Entry → ℕ → M (Unit {0})
unfolding check_empty dirtable_write
delete_at table_lba entries slot = do
  let e = entry_at entries slot
  if e.kind == type_dir then check_empty e else pure tt
  dirtable_write table_lba (set entries slot empty_entry)

unfoldable pub delete : List ℕ → M (Unit {0})
unfolding ensure_mounted walk_to_parent dirtable_read dirtable_find delete_at
delete path = do
  ensure_mounted
  at ← walk_to_parent path
  entries ← dirtable_read at.1
  slot ← from_option (dirtable_find entries at.0)
  delete_at at.1 entries slot

-- The loop over `new_name` from index `i`: no slash, and 15 characters at most.
unfoldable pub name_allowed_from : ℕ → List ℕ → Bool
name_allowed_from i [] = true
name_allowed_from i (c ∷ cs) =
    let rest = name_allowed_from (i + 1) cs in
    if c == slash || leb (name_max - 1) i then false else rest

abbrev pub taken_by_other : Option ℕ → ℕ → Bool
taken_by_other none slot = false
taken_by_other (some existing) slot = not (existing == slot)

-- `fs_rename` from the point where the entry is found.
unfoldable pub rename_at : ℕ → List Entry → ℕ → List ℕ → M (Unit {0})
unfolding dirtable_find name_allowed_from str_eq dirtable_write name_copy
rename_at table_lba entries slot new_name = do
  guard (not (char_at new_name == 0))
  guard (name_allowed_from 0 new_name)
  guard (not (is_reserved table_lba new_name))
  guard (not (taken_by_other (dirtable_find entries new_name) slot))
  dirtable_write table_lba
      (set entries slot (record (entry_at entries slot) { name = name_copy new_name }))

unfoldable pub rename : List ℕ → List ℕ → M (Unit {0})
unfolding ensure_mounted walk_to_parent dirtable_read dirtable_find rename_at
rename path new_name = do
  ensure_mounted
  at ← walk_to_parent path
  entries ← dirtable_read at.1
  slot ← from_option (dirtable_find entries at.0)
  rename_at at.1 entries slot new_name

-- The checks that `fs_move` and `fs_copy_file` share: the source's table, entries, slot and leaf.
pub record Source : Type 0 where
  pub leaf : List ℕ
  pub table_lba : ℕ
  pub entries : List Entry
  pub slot : ℕ

unfoldable pub find_source : List ℕ → M Source
unfolding walk_to_parent dirtable_read dirtable_find
find_source path = do
  at ← walk_to_parent path
  entries ← dirtable_read at.1
  slot ← from_option (dirtable_find entries at.0)
  guard ((entry_at entries slot).kind == type_file)
  let found : Source = record { leaf = at.0; table_lba = at.1; entries = entries; slot = slot }
  pure found

-- The destination's table, its entries and the slot for `leaf`.
unfoldable pub find_destination : List ℕ → List ℕ → M (ℕ × List Entry × ℕ)
unfolding resolve_dir_lba dirtable_read free_slot str_eq
find_destination leaf dest_dir = do
  table_lba ← resolve_dir_lba dest_dir
  guard (not (is_reserved table_lba leaf))
  entries ← dirtable_read table_lba
  slot ← free_slot table_lba leaf entries
  pure (table_lba, entries, slot)

-- `fs_move` from the point where both tables are known: the destination is written first.
unfoldable pub move_entry : Source → ℕ × List Entry × ℕ → M (Unit {0})
unfolding dirtable_write
move_entry src dest = do
  dirtable_write dest.0 (set dest.1 dest.2 (entry_at src.entries src.slot))
  dirtable_write src.table_lba (set src.entries src.slot empty_entry)

unfoldable pub move : List ℕ → List ℕ → M (Unit {0})
unfolding ensure_mounted find_source find_destination move_entry
move path dest_dir = do
  ensure_mounted
  src ← find_source path
  dest ← find_destination src.leaf dest_dir
  move_entry src dest

-- The copying loop with `n` sectors left.
unfoldable pub copy_chunks : ℕ → ℕ → ℕ → M (Unit {0})
unfolding read_sector write_sector
copy_chunks zero from to = pure tt
copy_chunks (suc n) from to = do
  buf ← read_sector from
  write_sector to buf
  copy_chunks n (from + 1) (to + 1)

-- `fs_copy_file` from the point where both tables are known.
unfoldable pub copy_entry : Source → ℕ × List Entry × ℕ → M (Unit {0})
unfolding sectors_for lba_span_valid alloc_sectors copy_chunks dirtable_write name_copy
copy_entry src dest = do
  let e = entry_at src.entries src.slot
  let sectors = sectors_for e.size_bytes
  guard (lba_span_valid e.start_lba sectors)
  new_lba ← alloc_sectors sectors
  copy_chunks sectors e.start_lba new_lba
  dirtable_write dest.0 (set dest.1 dest.2 (file_entry src.leaf new_lba e.size_bytes))

unfoldable pub copy_file : List ℕ → List ℕ → M (Unit {0})
unfolding ensure_mounted find_source find_destination copy_entry
copy_file path dest_dir = do
  ensure_mounted
  src ← find_source path
  dest ← find_destination src.leaf dest_dir
  copy_entry src dest
