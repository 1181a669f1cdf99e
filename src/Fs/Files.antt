-- ===== src/Fs/Files.antt =====
-- kernel/fs/fs.c: creating directories and files, appending, reading.
use rave_os.Prelude.{
  ℕ, zero, suc, ◌+◌, ◌-◌, ◌*◌, ◌/◌, ◌%◌, ◌^◌, min, Bool, true, false, Option, none, some, List, [],
  ◌++◌, ◌==◌, ltb, leb, not, ◌&&◌, if◌then◌else◌, length, take, drop, set,
}
use rave_os.Fs.Names.{dev_name, str_eq, name_copy}
use rave_os.Fs.Disk.{
  M, ok, ◌>>=◌, ◌>>◌, pure, guard, from_option, read_sector, write_sector, sector_size, zero_sector,
  pad, root_lba,
}
use rave_os.Fs.Layout.{
  Entry, type_file, type_dir, dirtable_read, dirtable_write, dirtable_find, dirtable_find_free,
  entry_at,
}
use rave_os.Fs.Walk.{lba_span_valid, walk_to_parent, ensure_mounted, alloc_sectors}

abbrev pub is_none : {A : Type 0} → Option A → Bool
is_none none = true
is_none (some a) = false

-- `table_lba == FS_ROOT_LBA && str_eq(leaf, FS_DEV_NAME)`
abbrev pub is_reserved : ℕ → List ℕ → Bool
is_reserved table_lba leaf = table_lba == root_lba && str_eq leaf dev_name

-- Sectors for `size` bytes: the division rounded up, and one at least.
unfoldable pub sectors_for : ℕ → ℕ
sectors_for size =
    let n = size / sector_size + (if size % sector_size == 0 then 0 else 1) in
    if n == 0 then 1 else n

-- The tests that every creation makes, and the free slot that they find.
unfoldable pub free_slot : ℕ → List ℕ → List Entry → M ℕ
unfolding dirtable_find dirtable_find_free
free_slot table_lba leaf entries = do
  guard (is_none (dirtable_find entries leaf))
  from_option (dirtable_find_free entries)

-- The entry that a new directory gets.
abbrev pub dir_entry : List ℕ → ℕ → Entry
dir_entry leaf lba = record {
  name = name_copy leaf;
  start_lba = lba;
  size_bytes = 0;
  kind = type_dir;
}

-- The entry that a new file gets.
abbrev pub file_entry : List ℕ → ℕ → ℕ → Entry
file_entry leaf lba size = record {
  name = name_copy leaf;
  start_lba = lba;
  size_bytes = size;
  kind = type_file;
}

-- `fs_create_dir` from the point where the parent's table is known.
unfoldable pub create_dir_at : List ℕ → ℕ → M (Unit {0})
unfolding dirtable_read free_slot alloc_sectors write_sector dirtable_write name_copy str_eq
create_dir_at leaf table_lba = do
  guard (not (is_reserved table_lba leaf))
  entries ← dirtable_read table_lba
  slot ← free_slot table_lba leaf entries
  new_lba ← alloc_sectors 1
  write_sector new_lba zero_sector
  dirtable_write table_lba (set entries slot (dir_entry leaf new_lba))

unfoldable pub create_dir : List ℕ → M (Unit {0})
unfolding ensure_mounted walk_to_parent create_dir_at
create_dir path = do ensure_mounted; at ← walk_to_parent path; create_dir_at at.0 at.1

-- The writing loop with `n` sectors left, the next one at `lba`; `src` is what is left to write.
unfoldable pub write_chunks : ℕ → ℕ → List ℕ → M (Unit {0})
unfolding write_sector pad
write_chunks zero lba src = pure tt
write_chunks (suc n) lba src = do
  write_sector lba (pad (take sector_size src))
  write_chunks n (lba + 1) (drop sector_size src)

-- `fs_create_file` from the point where the parent's table is known.
unfoldable pub create_file_at : List ℕ → ℕ → List ℕ → M (Unit {0})
unfolding dirtable_read free_slot alloc_sectors write_chunks dirtable_write name_copy sectors_for
    str_eq
create_file_at leaf table_lba src = do
  guard (not (is_reserved table_lba leaf))
  entries ← dirtable_read table_lba
  slot ← free_slot table_lba leaf entries
  lba ← alloc_sectors (sectors_for (length src))
  write_chunks (sectors_for (length src)) lba src
  dirtable_write table_lba (set entries slot (file_entry leaf lba (length src)))

unfoldable pub create_file : List ℕ → List ℕ → M (Unit {0})
unfolding ensure_mounted walk_to_parent create_file_at
create_file path src = do ensure_mounted; at ← walk_to_parent path; create_file_at at.0 at.1 src

-- `buf[off + i] = src[i]` for every byte of `src`.
unfoldable pub overlay : List ℕ → ℕ → List ℕ → List ℕ
overlay buf off src = take off buf ++ (src ++ drop (off + length src) buf)

unfoldable pub next_free_lba : M ℕ
next_free_lba s = (ok s.sb.next_free, s)

-- The part of `fs_append_file` that fills the file's last sector.
unfoldable pub fill_tail : ℕ → ℕ → List ℕ → M (Unit {0})
unfolding read_sector write_sector overlay
fill_tail lba off src =
    if length src == 0
    then pure tt
    else do buf ← read_sector lba; write_sector lba (overlay buf off src)

-- The part that adds sectors, allowed only to the file that the allocator served last.
unfoldable pub grow : ℕ → List ℕ → M (Unit {0})
unfolding next_free_lba alloc_sectors write_chunks
grow end_lba src = if length src == 0 then pure tt else do
  next ← next_free_lba
  guard (end_lba == next)
  let extra = length src / sector_size + (if length src % sector_size == 0 then 0 else 1)
  extra_lba ← alloc_sectors extra
  write_chunks extra extra_lba src

-- `fs_append_file` from the point where the entry is found.
unfoldable pub append_at : ℕ → List Entry → ℕ → List ℕ → M (Unit {0})
unfolding sectors_for lba_span_valid fill_tail grow dirtable_write
append_at table_lba entries slot src =
    let e = entry_at entries slot in
    let new_size = (e.size_bytes + length src) % 2 ^ 32 in
    let old_sectors = sectors_for e.size_bytes in
    let last_sector_offset = e.size_bytes - (old_sectors - 1) * sector_size in
    let into_tail = min (length src) (sector_size - last_sector_offset) in
    do
      guard (e.kind == type_file)
      if length src == 0 then pure tt else do
        guard (not (ltb new_size e.size_bytes))
        guard (lba_span_valid e.start_lba old_sectors)
        fill_tail (e.start_lba + old_sectors - 1) last_sector_offset (take into_tail src)
        grow (e.start_lba + old_sectors) (drop into_tail src)
        dirtable_write table_lba (set entries slot (record e { size_bytes = new_size }))

abbrev pub append_or_create : List ℕ → ℕ → List Entry → List ℕ → Option ℕ → M (Unit {0})
append_or_create path table_lba entries src none = create_file path src
append_or_create path table_lba entries src (some slot) = append_at table_lba entries slot src

unfoldable pub append_file : List ℕ → List ℕ → M (Unit {0})
unfolding ensure_mounted walk_to_parent dirtable_read dirtable_find create_file append_at
append_file path src = do
  ensure_mounted
  at ← walk_to_parent path
  entries ← dirtable_read at.1
  append_or_create path at.1 entries src (dirtable_find entries at.0)

-- The reading loop with `n` sectors left, the next one at `lba`, and `size` bytes still to copy.
unfoldable pub read_chunks : ℕ → ℕ → ℕ → M (List ℕ)
unfolding read_sector
read_chunks zero lba size = pure []
read_chunks (suc n) lba size = do
  buf ← read_sector lba
  rest ← read_chunks n (lba + 1) (size - sector_size)
  pure (take (min size sector_size) buf ++ rest)

-- `fs_read_file` from the point where the entry is found.
unfoldable pub read_found : Entry → ℕ → M (List ℕ)
unfolding sectors_for lba_span_valid read_chunks
read_found e buf_size = do
  guard (e.kind == type_file)
  guard (leb e.size_bytes buf_size)
  guard (lba_span_valid e.start_lba (sectors_for e.size_bytes))
  read_chunks (sectors_for e.size_bytes) e.start_lba e.size_bytes

-- The bytes that `fs_read_file` leaves in the caller's buffer; their number is `*out_size`.
unfoldable pub read_file : List ℕ → ℕ → M (List ℕ)
unfolding ensure_mounted walk_to_parent dirtable_read dirtable_find read_found
read_file path buf_size = do
  ensure_mounted
  at ← walk_to_parent path
  entries ← dirtable_read at.1
  slot ← from_option (dirtable_find entries at.0)
  read_found (entry_at entries slot) buf_size
