-- ===== src/Fs/Safety/Histories.antt =====
-- kernel/fs/fs.c: mounting and histories of calls, with the reserved tail as the sectors that are kept.
use rave_os.Prelude.{
  ℕ, ◌≤◌, ◌<◌, ◌≡◌, refl, Bool, true, false, ◌&&◌, Option, none, some, List, [], ◌∷◌, arith,
  Bool-cases, inl, if◌then◌else◌, inr, codes,
}
use rave_os.Fs.Names.{str_eq}
use rave_os.Fs.Disk.{
  State, Superblock, Result, ok, fail, M, ◌>>=◌, pure, from_option, read_sector, write_sector,
  read_cases, write_cases, advance, with_sector, pad, root_lba, superblock_lba, zero_sector,
}
use rave_os.Fs.Layout.{
  Entry, dirtable_read, dirtable_find, entry_at, sb_write, decode_sb, encode_sb,
}
use rave_os.Fs.Walk.{
  walk_to_parent, resolve_dir_lba, ensure_mounted, fs_init, format, fresh_sb, sb_trusted, loaded_sb,
  read_ok,
}
use rave_os.Fs.Files.{
  read_file, read_found, create_dir, create_dir_at, create_file, create_file_at, append_or_create,
}
use rave_os.Fs.Manage.{copy_entry, rename_at, move_entry, delete_at, find_source, find_destination}
use rave_os.Fs.Listing.{Dirent, list_table, list_dev, create_dirs, standard_dirs}
use rave_os.Fs.Selftest.{
  selftest, read_again, after_create, after_mkdir, after_read, selftest_dir, selftest_path,
  selftest_content,
}
use rave_os.Fs.Calls.{
  self_test, Call, init, bootstrap, mkdir, create, append, read, list, remove, change_name,
  relocate, duplicate, perform, perform_all,
}
use rave_os.Fs.Safety.Ensures.{Post, Ensures, bind, from_option-Ensures, Post-state}
use rave_os.Fs.Safety.Steps.{
  IsSound, Inv, Any, walk_to_parent-Ensures, resolve_dir_lba-Ensures, dirtable_read-Ensures,
  read_sector-Ensures, Table,
}
use rave_os.Fs.Safety.Changing.{
  copy_entry-Ensures, rename_at-Ensures, read_found-Ensures, move_entry-Ensures, delete_at-Ensures,
  append_at-Ensures, find_source-Ensures, find_destination-Ensures,
}
use rave_os.Fs.Safety.Creating.{create_dir_at-Ensures, create_file_at-Ensures}

-- A trusted superblock is a sound one.
sb_trusted-IsSound : (sb : Superblock) → sb_trusted sb ≡ true → IsSound sb
unfolding sb_trusted
sb_trusted-IsSound sb h = ground arith

module _ (content : ℕ → List ℕ) where
  -- The sectors from the reserved tail on.
  abbrev Tail : ℕ → Type 0
  Tail lba = 2047 ≤ lba

  abbrev I : State → Type 0
  I = Inv Tail content 2

  -- The tail as it was, and a sound superblock once mounted.
  pub record Before (s : State) : Type 0 where
    pub sound : s.mounted ≡ true → IsSound s.sb
    pub tail : (lba : ℕ) → 2047 ≤ lba → s.sectors lba ≡ content lba

  I-Before : {s : State} → I s → Before s
  I-Before i = record { sound = λ _. i.sound; tail = i.keeps }

  abbrev TailIs : State → Type 0
  TailIs s = (lba : ℕ) → 2047 ≤ lba → s.sectors lba ≡ content lba

  -- A write below the tail keeps the tail and the superblock in memory.
  abbrev Mount : Superblock → State → Type 0
  Mount sb s = (s.sb ≡ sb) × TailIs s

  write_sector-Mount :
      (lba : ℕ) (buf : List ℕ) (sb : Superblock) (s : State)
      → lba < 2047
      → Mount sb s
      → Mount sb (write_sector lba buf s).1
  write_sector-Mount lba buf sb s h m =
      write_cases (λ r. Mount sb r.1) lba buf s (m.0, stored) (m.0, m.1) (m.0, stored)
    where
      stored : TailIs (with_sector (advance s) lba buf)
      stored a k = ground (arith, m.1 a)

  format-Mount : (s : State) → TailIs s → Mount fresh_sb (format s)
  unfolding format sb_write
  format-Mount s t =
      write_sector-Mount root_lba zero_sector fresh_sb (sb_write (record s { sb = fresh_sb })).1
        (omega arith)
        (write_sector-Mount superblock_lba (pad (encode_sb fresh_sb)) fresh_sb
          (record s { sb = fresh_sb }) (omega arith) (refl, t))

  -- Mounting succeeds on every disk: it ends with a sound superblock, formatting where it must.
  mounted-I :
      (r : Result (List ℕ) × State)
      → TailIs r.1
      → I
          (record (if read_ok r && sb_trusted (loaded_sb r).sb
            then loaded_sb r
            else format (loaded_sb r)) { mounted = true })
  mounted-I (fail, s) t =
      let m = format-Mount s t in
      record { mounted = refl; sound = rw m.0 fresh; above = rw m.0 (omega arith); keeps = m.1 }
    where
      fresh : IsSound fresh_sb
      fresh = omega arith
  mounted-I (ok b, s) t = elim (Bool-cases (sb_trusted (decode_sb b))) [
    | inl e ↦
        let sound = sb_trusted-IsSound (decode_sb b) e in
        rw e (record { mounted = refl; sound = sound; above = sound.low; keeps = t })
    | inr e ↦
        let m = format-Mount (record s { sb = decode_sb b }) t in
        rw e (record {
          mounted = refl;
          sound = rw m.0 fresh;
          above = rw m.0 (omega arith);
          keeps = m.1;
        })
  ]
    where
      fresh : IsSound fresh_sb
      fresh = omega arith

  fs_init-I : (s : State) → TailIs s → I (fs_init s)
  unfolding fs_init
  fs_init-I s t =
      mounted-I (read_sector superblock_lba s) (read_cases (λ r. TailIs r.1) superblock_lba s t t)

  if-I : (b : Bool) (s s' : State) → (b ≡ true → I s) → I s' → I (if b then s else s')
  if-I true s s' h h' = h refl
  if-I false s s' h h' = h'

  ensure_mounted-I : (s : State) → Before s → I (ensure_mounted s).1
  unfolding ensure_mounted
  ensure_mounted-I s b = if-I s.mounted s (fs_init s) kept (fs_init-I s b.tail)
    where
      kept : s.mounted ≡ true → I s
      kept e = record { mounted = e; sound = b.sound e; above = (b.sound e).low; keeps = b.tail }

  out : (lba : ℕ) → lba < 2047 → ¬ (Tail lba)
  out lba h t = omega arith

  above-out : (lba : ℕ) → 2 ≤ lba → lba < 2047 → ¬ (Tail lba)
  above-out lba _ h = out lba h

  abbrev A0 : {A : Type 0} → A → Type 0
  A0 = Any Tail content 2

  -- Within a call the filesystem is mounted; mounting it again changes nothing of that.
  ensure_mounted-Ensures : Ensures I A0 ensure_mounted
  unfolding ensure_mounted
  ensure_mounted-Ensures s i = (tt, ensure_mounted-I s (I-Before i))

  -- A call that mounts first and then goes on by `m`.
  after_mount :
      {A : Type 0} (Q : A → Type 0) (m : M A) (s : State)
      → Ensures I Q m
      → Before s
      → I (m (ensure_mounted s).1).1
  after_mount Q m s e b = Post-state I Q _ (e _ (ensure_mounted-I s b))

  create_dir-Ensures :
      (path : List ℕ) → Ensures I A0 (do at ← walk_to_parent path; create_dir_at at.0 at.1)
  create_dir-Ensures path =
      bind I _ A0 (walk_to_parent path) _ (walk_to_parent-Ensures Tail content 2 path) λ at t.
        create_dir_at-Ensures Tail content 2 (out 0 (omega arith)) above-out at.0 at.1
          (out at.1 t.1)

  create_file-Ensures :
      (path src : List ℕ) → Ensures I A0 (do at ← walk_to_parent path; create_file_at at.0 at.1 src)
  create_file-Ensures path src =
      bind I _ A0 (walk_to_parent path) _ (walk_to_parent-Ensures Tail content 2 path) λ at t.
        create_file_at-Ensures Tail content 2 (out 0 (omega arith)) above-out at.0 at.1 src
          (out at.1 t.1)

  created : (path src : List ℕ) → Ensures I A0 (create_file path src)
  unfolding create_file
  created path src =
      bind I A0 A0 ensure_mounted _ ensure_mounted-Ensures λ _ _. create_file-Ensures path src

  appended :
      (path src : List ℕ) (lba : ℕ) (es : List Entry) (slot : Option ℕ)
      → Table Tail content 2 lba
      → Ensures I A0 (append_or_create path lba es src slot)
  appended path src lba es none t = created path src
  appended path src lba es (some slot) t = append_at-Ensures Tail content 2 out lba es slot src t

  append_file-Ensures :
      (path src : List ℕ)
      → Ensures I A0 (do
        at ← walk_to_parent path
        es ← dirtable_read at.1
        append_or_create path at.1 es src (dirtable_find es at.0))
  append_file-Ensures path src =
      bind I _ A0 (walk_to_parent path) _ (walk_to_parent-Ensures Tail content 2 path) λ at t.
        bind I A0 A0 (dirtable_read at.1) _ (dirtable_read-Ensures Tail content 2 at.1)
          λ es _. appended path src at.1 es (dirtable_find es at.0) t

  read_file-Ensures :
      (path : List ℕ) (room : ℕ)
      → Ensures I A0 (do
        at ← walk_to_parent path
        entries ← dirtable_read at.1
        slot ← from_option (dirtable_find entries at.0)
        read_found (entry_at entries slot) room)
  read_file-Ensures path room =
      bind I _ A0 (walk_to_parent path) _ (walk_to_parent-Ensures Tail content 2 path) λ at t.
        bind I A0 A0 (dirtable_read at.1) _ (dirtable_read-Ensures Tail content 2 at.1) λ es _.
          bind I _ A0 (from_option (dirtable_find es at.0)) _ (from_option-Ensures I _)
            λ slot _. read_found-Ensures Tail content 2 out (entry_at es slot) room

  delete-Ensures :
      (path : List ℕ)
      → Ensures I A0 (do
        at ← walk_to_parent path
        entries ← dirtable_read at.1
        slot ← from_option (dirtable_find entries at.0)
        delete_at at.1 entries slot)
  delete-Ensures path =
      bind I _ A0 (walk_to_parent path) _ (walk_to_parent-Ensures Tail content 2 path) λ at t.
        bind I A0 A0 (dirtable_read at.1) _ (dirtable_read-Ensures Tail content 2 at.1) λ es _.
          bind I _ A0 (from_option (dirtable_find es at.0)) _ (from_option-Ensures I _)
            λ slot _. delete_at-Ensures Tail content 2 out at.1 es slot t

  rename-Ensures :
      (path new_name : List ℕ)
      → Ensures I A0 (do
        at ← walk_to_parent path
        entries ← dirtable_read at.1
        slot ← from_option (dirtable_find entries at.0)
        rename_at at.1 entries slot new_name)
  rename-Ensures path new_name =
      bind I _ A0 (walk_to_parent path) _ (walk_to_parent-Ensures Tail content 2 path) λ at t.
        bind I A0 A0 (dirtable_read at.1) _ (dirtable_read-Ensures Tail content 2 at.1) λ es _.
          bind I _ A0 (from_option (dirtable_find es at.0)) _ (from_option-Ensures I _)
            λ slot _. rename_at-Ensures Tail content 2 out at.1 es slot new_name t

  move-Ensures :
      (path dest_dir : List ℕ)
      → Ensures I A0 (do
        src ← find_source path
        dest ← find_destination src.leaf dest_dir
        move_entry src dest)
  move-Ensures path dest_dir =
      bind I _ A0 (find_source path) _ (find_source-Ensures Tail content 2 out path) λ src t.
        bind I _ A0 (find_destination src.leaf dest_dir) _
          (find_destination-Ensures Tail content 2 out src.leaf dest_dir)
          λ dest u. move_entry-Ensures Tail content 2 out src dest t u

  copy_file-Ensures :
      (path dest_dir : List ℕ)
      → Ensures I A0 (do
        src ← find_source path
        dest ← find_destination src.leaf dest_dir
        copy_entry src dest)
  copy_file-Ensures path dest_dir =
      bind I _ A0 (find_source path) _ (find_source-Ensures Tail content 2 out path) λ src t.
        bind I _ A0 (find_destination src.leaf dest_dir) _
          (find_destination-Ensures Tail content 2 out src.leaf dest_dir)
          λ dest u. copy_entry-Ensures Tail content 2 out src dest u

  list_dir-Ensures :
      (path : List ℕ) (room : ℕ)
      → Ensures I A0 (
          if str_eq path (codes "/DEV") then list_dev room else do
            table_lba ← resolve_dir_lba path
            entries ← dirtable_read table_lba
            pure (list_table (str_eq path (codes "/")) room entries))
  unfolding list_dev
  list_dir-Ensures path room = listed (str_eq path (codes "/DEV"))
    where
      probed :
          (b : Bool) (r : Result (List ℕ) × State) (s : State) (hda hdb : List Dirent)
          → I r.1
          → I s
          → Post I A0 (if b then (ok (if read_ok r then hdb else hda), r.1) else (ok hda, s))
      probed true r s hda hdb i j = (tt, i)
      probed false r s hda hdb i j = (tt, j)

      dev : Ensures I A0 (list_dev room)
      dev s i =
          probed _ (read_sector superblock_lba s) s _ _
            (Post-state I A0 _ (read_sector-Ensures Tail content 2 superblock_lba s i)) i

      listed :
          (b : Bool)
          → Ensures I A0 (
              if b then list_dev room else do
                table_lba ← resolve_dir_lba path
                entries ← dirtable_read table_lba
                pure (list_table (str_eq path (codes "/")) room entries))
      listed true = dev
      listed false =
          bind I (Table Tail content 2) A0 (resolve_dir_lba path) _
            (resolve_dir_lba-Ensures Tail content 2 path)
            λ lba t.
              bind I A0 A0 (dirtable_read lba) _ (dirtable_read-Ensures Tail content 2 lba)
                λ es _ s i. (tt, i)

  create_dirs-Before : (ds : List (List ℕ)) (s : State) → Before s → Before (create_dirs ds s)
  unfolding create_dirs create_dir
  create_dirs-Before [] s b = b
  create_dirs-Before (d ∷ ds) s b =
      create_dirs-Before ds (create_dir d s).1
        (I-Before (after_mount A0 _ s (create_dir-Ensures d) b))

  read_file-Before :
      (path : List ℕ) (room : ℕ) (s : State) → Before s → Before (read_file path room s).1
  unfolding read_file
  read_file-Before path room s b = I-Before (after_mount A0 _ s (read_file-Ensures path room) b)

  create_file-Before :
      (path bytes : List ℕ) (s : State) → Before s → Before (create_file path bytes s).1
  unfolding create_file
  create_file-Before path bytes s b =
      I-Before (after_mount A0 _ s (create_file-Ensures path bytes) b)

  create_dir-Before : (path : List ℕ) (s : State) → Before s → Before (create_dir path s).1
  unfolding create_dir
  create_dir-Before path s b = I-Before (after_mount A0 _ s (create_dir-Ensures path) b)

  -- The self test, call by call.
  read_again-Before : (r : Result (List ℕ) × State) → Before r.1 → Before (read_again r).1
  read_again-Before (ok bytes, s) b = b
  read_again-Before (fail, s) b = b

  after_create-Before : (r : Result (Unit {0}) × State) → Before r.1 → Before (after_create r).1
  after_create-Before (ok done, s) b =
      read_again-Before (read_file selftest_path 64 s) (read_file-Before selftest_path 64 s b)
  after_create-Before (fail, s) b = b

  after_mkdir-Before : (r : Result (Unit {0}) × State) → Before r.1 → Before (after_mkdir r).1
  after_mkdir-Before (ok done, s) b =
      after_create-Before (create_file selftest_path selftest_content s)
        (create_file-Before selftest_path selftest_content s b)
  after_mkdir-Before (fail, s) b = b

  after_read-Before : (r : Result (List ℕ) × State) → Before r.1 → Before (after_read r).1
  after_read-Before (ok bytes, s) b = b
  after_read-Before (fail, s) b =
      after_mkdir-Before (create_dir selftest_dir s) (create_dir-Before selftest_dir s b)

  selftest-Before : (s : State) → Before s → Before (selftest s).1
  unfolding selftest
  selftest-Before s b =
      after_read-Before (read_file selftest_path 64 (fs_init s))
        (read_file-Before selftest_path 64 (fs_init s) (I-Before (fs_init-I s b.tail)))

  pub perform-Before : (c : Call) (s : State) → Before s → Before (perform c s)
  unfolding perform
  perform-Before init s b = I-Before (fs_init-I s b.tail)
  perform-Before bootstrap s b =
      create_dirs-Before standard_dirs _ (I-Before (ensure_mounted-I s b))
  perform-Before self_test s b = selftest-Before s b
  perform-Before (mkdir path) s b = I-Before (after_mount A0 _ s (create_dir-Ensures path) b)
  perform-Before (create path bytes) s b =
      I-Before (after_mount A0 _ s (create_file-Ensures path bytes) b)
  perform-Before (append path bytes) s b =
      I-Before (after_mount A0 _ s (append_file-Ensures path bytes) b)
  perform-Before (read path room) s b =
      I-Before (after_mount A0 _ s (read_file-Ensures path room) b)
  perform-Before (list path room) s b = I-Before (after_mount A0 _ s (list_dir-Ensures path room) b)
  perform-Before (remove path) s b = I-Before (after_mount A0 _ s (delete-Ensures path) b)
  perform-Before (change_name path name) s b =
      I-Before (after_mount A0 _ s (rename-Ensures path name) b)
  perform-Before (relocate path dest) s b = I-Before (after_mount A0 _ s (move-Ensures path dest) b)
  perform-Before (duplicate path dest) s b =
      I-Before (after_mount A0 _ s (copy_file-Ensures path dest) b)

  -- From a state with the tail as given and a sound superblock once mounted, every history of calls
  -- leaves the tail as given and the superblock sound once mounted, whatever the disk holds and
  -- whichever transfers fail.
  pub perform_all-Before : (cs : List Call) (s : State) → Before s → Before (perform_all cs s)
  unfolding perform_all
  perform_all-Before [] s b = b
  perform_all-Before (c ∷ cs) s b = perform_all-Before cs (perform c s) (perform-Before c s b)

-- Whatever the disk holds and whichever transfers fail, after `fs_init` the filesystem is mounted
-- with a superblock whose allocator starts in the data area and before the reserved tail.
pub fs_init-IsSound : (s : State) → ((fs_init s).mounted ≡ true) × IsSound (fs_init s).sb
fs_init-IsSound s = let i = fs_init-I s.sectors s (λ lba h. refl) in (i.mounted, i.sound)
