-- ===== src/Fs/Safety/Creating.antt =====
-- kernel/fs/fs.c: `fs_create_dir`, `fs_create_file` and `fs_append_file` after the walk, and the sectors
-- other than the superblock, the parent's table and those newly allocated.
use rave_os.Prelude.{
  set, ℕ, zero, suc, ◌+◌, ◌≤◌, ◌<◌, List, ◌==◌, not, length, take, drop, arith, Bool-cases, inl,
  inr, ◌/◌, ◌%◌, if◌then◌else◌,
}
use rave_os.Fs.Disk.{
  State, guard, from_option, read_sector, write_sector, zero_sector, sector_size, pad,
}
use rave_os.Fs.Layout.{Entry, dirtable_read, dirtable_find, dirtable_find_free}
use rave_os.Fs.Walk.{alloc_sectors}
use rave_os.Fs.Files.{
  is_none, is_reserved, dir_entry, file_entry, free_slot, sectors_for, create_dir_at,
  create_file_at, write_chunks, fill_tail, grow, next_free_lba,
}
use rave_os.Fs.Safety.Ensures.{Ensures, bind, guard-Ensures, from_option-Ensures}
use rave_os.Fs.Safety.Steps.{
  Inv, Any, Ensures-weaken, Fresh, read_sector-Ensures, write_sector-Ensures, dirtable_read-Ensures,
  dirtable_write-Ensures, alloc_sectors-Ensures,
}

module _ (kept : ℕ → Type 0) (content : ℕ → List ℕ) (floor : ℕ) (zero_out : ¬ (kept 0))
    (fresh_out : (lba : ℕ) → floor ≤ lba → lba < 2047 → ¬ (kept lba)) where
  abbrev I : State → Type 0
  I = Inv kept content floor

  abbrev A0 : {A : Type 0} → A → Type 0
  A0 = Any kept content floor

  pub free_slot-Ensures :
      (lba : ℕ) (leaf : List ℕ) (es : List Entry) → Ensures I A0 (free_slot lba leaf es)
  unfolding free_slot
  free_slot-Ensures lba leaf es =
      bind I _ A0 (guard (is_none (dirtable_find es leaf))) _ (guard-Ensures I _) λ _ _.
        Ensures-weaken kept content floor _ A0 (from_option (dirtable_find_free es)) (λ _ _. tt)
          (from_option-Ensures I _)

  pub write_chunks-Ensures :
      (n lba : ℕ) (src : List ℕ)
      → ((a : ℕ) → lba ≤ a → a < lba + n → ¬ (kept a))
      → Ensures I A0 (write_chunks n lba src)
  unfolding write_chunks
  write_chunks-Ensures zero lba src out = λ s i. (tt, i)
  write_chunks-Ensures (suc n) lba src out =
      bind I A0 A0 (write_sector lba (pad (take sector_size src))) _
        (write_sector-Ensures kept content floor lba _ (out lba (omega arith) (omega arith)))
        λ _ _.
          write_chunks-Ensures n (lba + 1) (drop sector_size src)
            λ a lo hi. out a (omega arith) (omega arith)

  allocated_Fresh :
      (count lba : ℕ)
      → Fresh kept content floor count lba
      → (a : ℕ) → lba ≤ a
      → a < lba + count
      → ¬ (kept a)
  allocated_Fresh count lba f a lo hi = fresh_out a (omega arith) (omega arith)

  pub create_dir_at-Ensures :
      (leaf : List ℕ) (lba : ℕ) → ¬ (kept lba) → Ensures I A0 (create_dir_at leaf lba)
  unfolding create_dir_at
  create_dir_at-Ensures leaf lba out =
      bind I _ A0 (guard (not (is_reserved lba leaf))) _ (guard-Ensures I _) λ _ _.
        bind I A0 A0 (dirtable_read lba) _ (dirtable_read-Ensures kept content floor lba) λ es _.
          bind I A0 A0 (free_slot lba leaf es) _ (free_slot-Ensures lba leaf es) λ slot _.
            bind I (Fresh kept content floor 1) A0 (alloc_sectors 1) _
              (alloc_sectors-Ensures kept content floor 1 zero_out)
              λ new f.
                bind I A0 A0 (write_sector new zero_sector) _
                  (write_sector-Ensures kept content floor new _
                    (allocated_Fresh 1 new f new (omega arith) (omega arith)))
                  λ _ _.
                    dirtable_write-Ensures kept content floor lba (set es slot (dir_entry leaf new))
                      out

  pub create_file_at-Ensures :
      (leaf : List ℕ) (lba : ℕ) (src : List ℕ)
      → ¬ (kept lba)
      → Ensures I A0 (create_file_at leaf lba src)
  unfolding create_file_at
  create_file_at-Ensures leaf lba src out =
      bind I _ A0 (guard (not (is_reserved lba leaf))) _ (guard-Ensures I _) λ _ _.
        bind I A0 A0 (dirtable_read lba) _ (dirtable_read-Ensures kept content floor lba) λ es _.
          bind I A0 A0 (free_slot lba leaf es) _ (free_slot-Ensures lba leaf es) λ slot _.
            bind I (Fresh kept content floor n) A0 (alloc_sectors n) _
              (alloc_sectors-Ensures kept content floor n zero_out)
              λ new f.
                bind I A0 A0 (write_chunks n new src) _
                  (write_chunks-Ensures n new src (allocated_Fresh n new f))
                  λ _ _.
                    dirtable_write-Ensures kept content floor lba
                      (set es slot (file_entry leaf new (length src))) out
    where
      n : ℕ
      n = sectors_for (length src)

  pub fill_tail-Ensures :
      (lba off : ℕ) (src : List ℕ) → ¬ (kept lba) → Ensures I A0 (fill_tail lba off src)
  unfolding fill_tail
  fill_tail-Ensures lba off src out = elim (Bool-cases (length src == 0)) [
    | inl e ↦ rw e (λ s i. (tt, i))
    | inr e ↦ rw e (
        bind I A0 A0 (read_sector lba) _ (read_sector-Ensures kept content floor lba)
          λ buf _. write_sector-Ensures kept content floor lba _ out)
  ]

  pub grow-Ensures : (end : ℕ) (src : List ℕ) → Ensures I A0 (grow end src)
  unfolding grow next_free_lba
  grow-Ensures end src = elim (Bool-cases (length src == 0)) [
    | inl e ↦ rw e (λ s i. (tt, i))
    | inr e ↦ rw e (
        bind I A0 A0 next_free_lba _ (λ s i. (tt, i))
          λ next _. bind I _ A0 (guard (end == next)) _ (guard-Ensures I _) λ _ _.
            bind I (Fresh kept content floor n) A0 (alloc_sectors n) _
              (alloc_sectors-Ensures kept content floor n zero_out)
              λ new f. write_chunks-Ensures n new src (allocated_Fresh n new f))
  ]
    where
      n : ℕ
      n = length src / sector_size + (if length src % sector_size == 0 then 0 else 1)
