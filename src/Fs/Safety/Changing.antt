-- ===== src/Fs/Safety/Changing.antt =====
-- kernel/fs/fs.c: the remaining calls, in a section where every sector that may change is below a bound.
use rave_os.Prelude.{
  true, false, Bool, if◌then◌else◌, leb, set, ℕ, zero, suc, ◌+◌, ◌-◌, ◌≤◌, ◌<◌, List, ◌==◌, not,
  length, take, drop, arith, Bool-cases, inl, inr, min, ltb, ◌%◌, ◌^◌, ◌*◌,
}
use rave_os.Fs.Names.{name_copy, char_at}
use rave_os.Fs.Disk.{pure, State, guard, from_option, read_sector, write_sector, sector_size}
use rave_os.Fs.Layout.{
  type_dir, empty_entry, dirtable_write, Entry, type_file, dirtable_read, dirtable_find, entry_at,
}
use rave_os.Fs.Walk.{alloc_sectors, lba_span_valid, walk_to_parent, resolve_dir_lba}
use rave_os.Fs.Files.{
  file_entry, read_found, is_reserved, free_slot, sectors_for, fill_tail, grow, append_at,
  read_chunks,
}
use rave_os.Fs.Manage.{
  taken_by_other, name_allowed_from, Source, delete_at, copy_entry, move_entry, rename_at, all_free,
  check_empty, find_source, find_destination, copy_chunks,
}
use rave_os.Fs.Safety.Ensures.{Ensures, bind, guard-Ensures, from_option-Ensures}
use rave_os.Fs.Safety.Steps.{
  alloc_sectors-Ensures, Fresh, Inv, Any, Ensures-weaken, Table, read_sector-Ensures,
  write_sector-Ensures, dirtable_read-Ensures, dirtable_write-Ensures, lba_span_valid_bounds,
  walk_to_parent-Ensures, resolve_dir_lba-Ensures,
}
use rave_os.Fs.Safety.Creating.{fill_tail-Ensures, grow-Ensures, free_slot-Ensures}

module _ (kept : ℕ → Type 0) (content : ℕ → List ℕ) (floor : ℕ)
    (out : (lba : ℕ) → lba < 2047 → ¬ (kept lba)) where
  abbrev I : State → Type 0
  I = Inv kept content floor

  abbrev A0 : {A : Type 0} → A → Type 0
  A0 = Any kept content floor

  abbrev T : ℕ → Type 0
  T = Table kept content floor

  above-out : (lba : ℕ) → floor ≤ lba → lba < 2047 → ¬ (kept lba)
  above-out lba _ h = out lba h

  zero_out : ¬ (kept 0)
  zero_out = out 0 (omega arith)

  pub append_at-Ensures :
      (lba : ℕ) (es : List Entry) (slot : ℕ) (src : List ℕ)
      → T lba
      → Ensures I A0 (append_at lba es slot src)
  unfolding append_at
  append_at-Ensures lba es slot src t =
      bind I _ A0 (guard (e.kind == type_file)) _ (guard-Ensures I _) λ _ _.
        elim (Bool-cases (length src == 0)) [
          | inl z ↦ rw z (λ s i. (tt, i))
          | inr z ↦ rw z (
              bind I _ A0 (guard (not (ltb ((e.size_bytes + length src) % 2 ^ 32) e.size_bytes))) _
                (guard-Ensures I _)
                λ _ _.
                  bind I _ A0 (guard (lba_span_valid e.start_lba n)) _ (guard-Ensures I _) λ _ h.
                    bind I A0 A0 (fill_tail (e.start_lba + n - 1) off (take into_tail src)) _
                      (fill_tail-Ensures kept content floor zero_out above-out _ _ _ (
                        out (e.start_lba + n - 1)
                          (omega (arith, lba_span_valid_bounds e.start_lba n h))))
                      λ _ _.
                        bind I A0 A0 (grow (e.start_lba + n) (drop into_tail src)) _
                          (grow-Ensures kept content floor zero_out above-out _ _)
                          λ _ _.
                            dirtable_write-Ensures kept content floor lba
                              (set es slot (record (entry_at es slot) {
                                size_bytes = (e.size_bytes + length src) % 2 ^ 32;
                              }))
                              (out lba t.1))
        ]
    where
      e : Entry
      e = entry_at es slot

      n : ℕ
      n = sectors_for e.size_bytes

      off : ℕ
      off = e.size_bytes - (n - 1) * sector_size

      into_tail : ℕ
      into_tail = min (length src) (sector_size - off)

  pub read_chunks-Ensures : (n lba size : ℕ) → Ensures I A0 (read_chunks n lba size)
  unfolding read_chunks
  read_chunks-Ensures zero lba size = λ s i. (tt, i)
  read_chunks-Ensures (suc n) lba size =
      bind I A0 A0 (read_sector lba) _ (read_sector-Ensures kept content floor lba) λ buf _.
        bind I A0 A0 (read_chunks n (lba + 1) (size - sector_size)) _
          (read_chunks-Ensures n (lba + 1) (size - sector_size)) λ rest _ s i. (tt, i)

  pub check_empty-Ensures : (e : Entry) → Ensures I A0 (check_empty e)
  unfolding check_empty
  check_empty-Ensures e =
      bind I _ A0 (guard (lba_span_valid e.start_lba 1)) _ (guard-Ensures I _) λ _ _.
        bind I A0 A0 (dirtable_read e.start_lba) _
          (dirtable_read-Ensures kept content floor e.start_lba)
          λ es _.
            Ensures-weaken kept content floor _ A0 (guard (all_free es)) (λ _ _. tt)
              (guard-Ensures I _)

  pub find_source-Ensures : (path : List ℕ) → Ensures I (λ src. T src.table_lba) (find_source path)
  unfolding find_source
  find_source-Ensures path =
      bind I _ _ (walk_to_parent path) _ (walk_to_parent-Ensures kept content floor path) λ at t.
        bind I A0 _ (dirtable_read at.1) _ (dirtable_read-Ensures kept content floor at.1) λ es _.
          bind I _ _ (from_option (dirtable_find es at.0)) _ (from_option-Ensures I _) λ slot _.
            bind I _ _ (guard ((entry_at es slot).kind == type_file)) _ (guard-Ensures I _)
              λ _ _ s i. (t, i)

  pub find_destination-Ensures :
      (leaf dest_dir : List ℕ) → Ensures I (λ d. T d.0) (find_destination leaf dest_dir)
  unfolding find_destination
  find_destination-Ensures leaf dest_dir =
      bind I T _ (resolve_dir_lba dest_dir) _ (resolve_dir_lba-Ensures kept content floor dest_dir)
        λ lba t. bind I _ _ (guard (not (is_reserved lba leaf))) _ (guard-Ensures I _) λ _ _.
          bind I A0 _ (dirtable_read lba) _ (dirtable_read-Ensures kept content floor lba) λ es _.
            bind I A0 _ (free_slot lba leaf es) _
              (free_slot-Ensures kept content floor zero_out above-out lba leaf es)
              λ slot _ s i. (t, i)

  pub copy_chunks-Ensures : (n from to : ℕ) → to + n ≤ 2047 → Ensures I A0 (copy_chunks n from to)
  unfolding copy_chunks
  copy_chunks-Ensures zero from to h = λ s i. (tt, i)
  copy_chunks-Ensures (suc n) from to h =
      bind I A0 A0 (read_sector from) _ (read_sector-Ensures kept content floor from) λ buf _.
        bind I A0 A0 (write_sector to buf) _
          (write_sector-Ensures kept content floor to buf (out to (omega arith)))
          λ _ _. copy_chunks-Ensures n (from + 1) (to + 1) (omega arith)

  pub read_found-Ensures : (e : Entry) (room : ℕ) → Ensures I A0 (read_found e room)
  unfolding read_found
  read_found-Ensures e room = bind I _ A0 (guard (e.kind == type_file)) _ (guard-Ensures I _) λ _ _.
      bind I _ A0 (guard (leb e.size_bytes room)) _ (guard-Ensures I _) λ _ _.
        bind I _ A0 (guard (lba_span_valid e.start_lba (sectors_for e.size_bytes))) _
          (guard-Ensures I _)
          λ _ _. read_chunks-Ensures (sectors_for e.size_bytes) e.start_lba e.size_bytes

  pub delete_at-Ensures :
      (lba : ℕ) (es : List Entry) (slot : ℕ) → T lba → Ensures I A0 (delete_at lba es slot)
  unfolding delete_at
  delete_at-Ensures lba es slot t =
      bind I A0 A0 (if e.kind == type_dir then check_empty e else pure tt) _
        (checked (e.kind == type_dir))
        λ _ _. dirtable_write-Ensures kept content floor lba (set es slot empty_entry) (out lba t.1)
    where
      e : Entry
      e = entry_at es slot

      checked : (b : Bool) → Ensures I A0 (if b then check_empty e else pure tt)
      checked true = check_empty-Ensures e
      checked false = λ s i. (tt, i)

  pub rename_at-Ensures :
      (lba : ℕ) (es : List Entry) (slot : ℕ) (new_name : List ℕ)
      → T lba
      → Ensures I A0 (rename_at lba es slot new_name)
  unfolding rename_at
  rename_at-Ensures lba es slot new_name t =
      bind I _ A0 (guard (not (char_at new_name == 0))) _ (guard-Ensures I _) λ _ _.
        bind I _ A0 (guard (name_allowed_from 0 new_name)) _ (guard-Ensures I _) λ _ _.
          bind I _ A0 (guard (not (is_reserved lba new_name))) _ (guard-Ensures I _) λ _ _.
            bind I _ A0 (guard (not (taken_by_other (dirtable_find es new_name) slot))) _
              (guard-Ensures I _)
              λ _ _.
                dirtable_write-Ensures kept content floor lba
                  (set es slot (record (entry_at es slot) { name = name_copy new_name }))
                  (out lba t.1)

  pub move_entry-Ensures :
      (src : Source) (dest : ℕ × List Entry × ℕ)
      → T src.table_lba
      → T dest.0
      → Ensures I A0 (move_entry src dest)
  unfolding move_entry
  move_entry-Ensures src dest t u =
      bind I A0 A0 (dirtable_write dest.0 (set dest.1 dest.2 (entry_at src.entries src.slot))) _
        (dirtable_write-Ensures kept content floor dest.0
          (set dest.1 dest.2 (entry_at src.entries src.slot)) (out dest.0 u.1))
        λ _ _.
          dirtable_write-Ensures kept content floor src.table_lba
            (set src.entries src.slot empty_entry) (out src.table_lba t.1)

  pub copy_entry-Ensures :
      (src : Source) (dest : ℕ × List Entry × ℕ) → T dest.0 → Ensures I A0 (copy_entry src dest)
  unfolding copy_entry
  copy_entry-Ensures src dest u =
      bind I _ A0 (guard (lba_span_valid e.start_lba n)) _ (guard-Ensures I _) λ _ _.
        bind I (Fresh kept content floor n) A0 (alloc_sectors n) _
          (alloc_sectors-Ensures kept content floor n zero_out)
          λ new f.
            bind I A0 A0 (copy_chunks n e.start_lba new) _
              (copy_chunks-Ensures n e.start_lba new f.2)
              λ _ _.
                dirtable_write-Ensures kept content floor dest.0
                  (set dest.1 dest.2 (file_entry src.leaf new e.size_bytes)) (out dest.0 u.1)
    where
      e : Entry
      e = entry_at src.entries src.slot

      n : ℕ
      n = sectors_for e.size_bytes
