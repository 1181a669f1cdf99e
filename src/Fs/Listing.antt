-- ===== src/Fs/Listing.antt =====
-- kernel/fs/fs.c: listing a directory, the synthetic /DEV and creating the standard directories.
use rave_os.Prelude.{
  ℕ, ◌+◌, Bool, false, List, [], ◌∷◌, ◌++◌, leb, ltb, not, ◌&&◌, ◌||◌, if◌then◌else◌, length, codes,
}
use rave_os.Fs.Names.{dev_name, str_eq, name_copy}
use rave_os.Fs.Disk.{State, M, ok, ◌>>=◌, ◌>>◌, pure, read_sector, superblock_lba}
use rave_os.Fs.Layout.{Entry, type_file, type_dir, is_free, dirtable_read}
use rave_os.Fs.Walk.{resolve_dir_lba, ensure_mounted, read_ok}
use rave_os.Fs.Files.{create_dir}

-- `struct fs_dirent`; `kind` is its field `type`.
pub record Dirent : Type 0 where
  pub name : List ℕ
  pub kind : ℕ
  pub size_bytes : ℕ

abbrev pub dirent : List ℕ → ℕ → ℕ → Dirent
dirent name kind size = record { name = name; kind = kind; size_bytes = size }

-- `fs_list_dev`: HDA always, HDB if the superblock can be read just now. The drive is asked only
-- where a second row fits.
unfoldable pub list_dev : ℕ → M (List Dirent)
unfolding name_copy read_sector
list_dev max_entries s =
    let hda = if ltb 0 max_entries then dirent (name_copy (codes "HDA")) type_file 0 ∷ [] else [] in
    let hdb = hda ++ (dirent (name_copy (codes "HDB")) type_file 0 ∷ []) in
    let probe = read_sector superblock_lba s in
    if ltb (length hda) max_entries
    then (ok (if read_ok probe then hdb else hda), probe.1)
    else (ok hda, s)

-- The loop of `fs_list_dir` with `count` rows written: the rows that it adds, and whether a real
-- entry takes the name DEV in the root.
unfoldable pub list_entries : Bool → ℕ → ℕ → List Entry → List Dirent × Bool
unfolding name_copy str_eq
list_entries is_root max_entries count [] = ([], false)
list_entries is_root max_entries count (e ∷ es) =
    let skip = list_entries is_root max_entries count es in
    let more = list_entries is_root max_entries (count + 1) es in
    if is_free e then skip else if leb max_entries count then ([], false) else (
      dirent (name_copy e.name) e.kind e.size_bytes ∷ more.0,
      (is_root && str_eq e.name dev_name) || more.1,
    )

unfoldable pub list_table : Bool → ℕ → List Entry → List Dirent
unfolding list_entries
list_table is_root max_entries entries =
    let r = list_entries is_root max_entries 0 entries in
    if is_root && (not r.1 && ltb (length r.0) max_entries)
    then r.0 ++ (dirent (name_copy dev_name) type_dir 0 ∷ [])
    else r.0

unfoldable pub list_dir : List ℕ → ℕ → M (List Dirent)
unfolding ensure_mounted resolve_dir_lba dirtable_read list_table list_dev str_eq
list_dir path max_entries = do
  ensure_mounted
  if str_eq path (codes "/DEV") then list_dev max_entries else do
    table_lba ← resolve_dir_lba path
    entries ← dirtable_read table_lba
    pure (list_table (str_eq path (codes "/")) max_entries entries)

-- `fs_standard_dirs`
abbrev pub standard_dirs : List (List ℕ)
standard_dirs =
    codes "/BIN"
    ∷ codes "/ETC"
    ∷ codes "/HOME"
    ∷ codes "/USR"
    ∷ codes "/VAR"
    ∷ codes "/TMP"
    ∷ codes "/GAMES"
    ∷ []

-- The loop of `fs_bootstrap_dirs`, which ignores each result.
unfoldable pub create_dirs : List (List ℕ) → State → State
unfolding create_dir
create_dirs [] s = s
create_dirs (d ∷ ds) s = create_dirs ds (create_dir d s).1

unfoldable pub bootstrap_dirs : State → State
unfolding ensure_mounted create_dirs
bootstrap_dirs s = create_dirs standard_dirs (ensure_mounted s).1
