-- ===== src/Fs/Safety/Steps.antt =====
-- kernel/fs/fs.c: the reads, the writes, the walk along a path and the allocator, under an invariant that
-- keeps a set of sectors.
use rave_os.Prelude.{
  ℕ, ◌+◌, ◌≤◌, ◌<◌, ◌≡◌, Bool, true, false, ◌&&◌, List, [], ◌∷◌, arith, Bool-cases, inl, inr, ◌≢◌,
  subst, sym,
}
use rave_os.Fs.Disk.{
  State, Superblock, Result, ok, fail, M, read_sector, write_sector, read_cases, write_cases,
  advance, with_sector, update, fs_magic, fs_version, total_sectors, root_lba, from_option, guard,
}
use rave_os.Fs.Layout.{Entry, dirtable_read, dirtable_write, dirtable_find, entry_at, sb_write}
use rave_os.Fs.Path.{path_split}
use rave_os.Fs.Walk.{
  lba_span_valid, is_dir, split_last, walk_components, walk_to_parent, resolve_dir_lba, names_root,
  with_next_free, alloc_sectors,
}
use rave_os.Fs.Safety.Ensures.{Post, Ensures, bind, guard-Ensures, from_option-Ensures, Post-state}

-- The fields of a superblock that `fs_init` accepts.
pub record IsSound (sb : Superblock) : Type 0 where
  pub magic : sb.magic ≡ fs_magic
  pub version : sb.version ≡ fs_version
  pub total : sb.total ≡ total_sectors
  pub low : 2 ≤ sb.next_free
  pub high : sb.next_free ≤ 2047

and_right : (a b : Bool) → (a && b) ≡ true → b ≡ true
and_right true b h = h
and_right false b h = cc

-- A span that `lba_span_valid` accepts lies in the data area, with no wrap-around.
pub lba_span_valid_bounds :
    (lba span : ℕ) → lba_span_valid lba span ≡ true → (2 ≤ lba) × (lba < 2047) × (lba + span ≤ 2047)
unfolding lba_span_valid
lba_span_valid_bounds lba span h = ground arith

is_dir-Table : (e : Entry) → is_dir e ≡ true → (1 ≤ e.start_lba) × (e.start_lba < 2047)
is_dir-Table e h = omega (arith, lba_span_valid_bounds e.start_lba 1 (and_right _ _ h))

-- `kept` are the sectors that hold what `content` says, and `floor` a bound under the allocator.
module _ (kept : ℕ → Type 0) (content : ℕ → List ℕ) (floor : ℕ) where
  pub record Inv (s : State) : Type 0 where
    pub mounted : s.mounted ≡ true
    pub sound : IsSound s.sb
    pub above : floor ≤ s.sb.next_free
    pub keeps : (lba : ℕ) → kept lba → s.sectors lba ≡ content lba

  abbrev pub Any : {A : Type 0} → A → Type 0
  Any a = Unit {0}

  Inv-advance : {s : State} → Inv s → Inv (advance s)
  Inv-advance i = record { mounted = i.mounted; sound = i.sound; above = i.above; keeps = i.keeps }

  Inv-with_sector :
      {s : State} (lba : ℕ) (buf : List ℕ) → ¬ (kept lba) → Inv s → Inv (with_sector s lba buf)
  Inv-with_sector {s} lba buf out i = record {
    mounted = i.mounted;
    sound = i.sound;
    above = i.above;
    keeps = λ a k. keeps-update s lba a buf (i.keeps a k) (λ e. out (subst kept (sym e) k));
  }
    where
      keeps-update :
          (s : State) (lba a : ℕ) (buf : List ℕ)
          → s.sectors a ≡ content a
          → lba ≢ a
          → update s.sectors lba buf a ≡ content a
      keeps-update s lba a buf h ne = ground arith

  pub read_sector-Ensures : (lba : ℕ) → Ensures Inv Any (read_sector lba)
  read_sector-Ensures lba s i = read_cases (Post Inv Any) lba s (tt, Inv-advance i) (Inv-advance i)

  pub write_sector-Ensures :
      (lba : ℕ) (buf : List ℕ) → ¬ (kept lba) → Ensures Inv Any (write_sector lba buf)
  write_sector-Ensures lba buf out s i =
      let j = Inv-advance i in
      let k = Inv-with_sector lba buf out j in write_cases (Post Inv Any) lba buf s (tt, k) j k

  pub dirtable_read-Ensures : (lba : ℕ) → Ensures Inv Any (dirtable_read lba)
  unfolding dirtable_read
  dirtable_read-Ensures lba =
      bind Inv Any Any (read_sector lba) _ (read_sector-Ensures lba) (λ b _ s i. (tt, i))

  pub dirtable_write-Ensures :
      (lba : ℕ) (es : List Entry) → ¬ (kept lba) → Ensures Inv Any (dirtable_write lba es)
  unfolding dirtable_write
  dirtable_write-Ensures lba es = write_sector-Ensures lba _

  -- Where a directory's table may be: the root's sector, or in the data area.
  abbrev pub Table : ℕ → Type 0
  Table lba = (1 ≤ lba) × (lba < 2047)

  pub Ensures-weaken :
      {A : Type 0} (Q R : A → Type 0) (m : M A)
      → ((a : A) → Q a → R a)
      → Ensures Inv Q m
      → Ensures Inv R m
  Ensures-weaken {A} Q R m h e s i = weaken (m s) (e s i)
    where
      weaken : (r : Result A × State) → Post Inv Q r → Post Inv R r
      weaken (ok a, s) p = (h a p.0, p.1)
      weaken (fail, s) p = p

  pub walk_components-Ensures :
      (cs : List (List ℕ)) (lba : ℕ) → Table lba → Ensures Inv Table (walk_components cs lba)
  unfolding walk_components
  walk_components-Ensures [] lba t = λ s i. (t, i)
  walk_components-Ensures (c ∷ cs) lba t =
      bind Inv Any Table (dirtable_read lba) _ (dirtable_read-Ensures lba) λ es _.
        bind Inv _ Table (from_option (dirtable_find es c)) _ (from_option-Ensures Inv _) λ slot _.
          bind Inv _ Table (guard (is_dir (entry_at es slot))) _ (guard-Ensures Inv _) λ _ h.
            walk_components-Ensures cs (entry_at es slot).start_lba
              (is_dir-Table (entry_at es slot) h)

  pub walk_to_parent-Ensures :
      (path : List ℕ) → Ensures Inv (λ at. Table at.1) (walk_to_parent path)
  unfolding walk_to_parent
  walk_to_parent-Ensures path =
      bind Inv _ _ (from_option (path_split path)) _ (from_option-Ensures Inv _) λ cs _.
        bind Inv Table _ (walk_components (split_last cs).0 root_lba) _
          (walk_components-Ensures (split_last cs).0 root_lba (omega arith)) λ lba h s i. (h, i)

  pub resolve_dir_lba-Ensures : (path : List ℕ) → Ensures Inv Table (resolve_dir_lba path)
  unfolding resolve_dir_lba
  resolve_dir_lba-Ensures path = elim (Bool-cases (names_root path)) [
    | inl e ↦ rw e (λ s i. (omega arith, i))
    | inr e ↦ rw e (
        bind Inv _ Table (from_option (path_split path)) _ (from_option-Ensures Inv _)
          λ cs _. walk_components-Ensures cs root_lba (omega arith))
  ]

  -- What the allocator hands out is in the data area, above everything handed out before.
  abbrev pub Fresh : ℕ → ℕ → Type 0
  Fresh count lba = (floor ≤ lba) × (2 ≤ lba) × (lba + count ≤ 2047)

  sb_write-Inv : (s : State) → ¬ (kept 0) → Inv s → Inv (sb_write s).1
  unfolding sb_write
  sb_write-Inv s out i = Post-state Inv Any _ (write_sector-Ensures 0 _ out s i)

  pub alloc_sectors-Ensures :
      (count : ℕ) → ¬ (kept 0) → Ensures Inv (Fresh count) (alloc_sectors count)
  unfolding alloc_sectors
  alloc_sectors-Ensures count out s i = elim (Bool-cases (lba_span_valid s.sb.next_free count)) [
    | inl e ↦
        let b = lba_span_valid_bounds s.sb.next_free count e in
        rw e (
          omega arith,
          sb_write-Inv (with_next_free s (s.sb.next_free + count)) out (record {
            mounted = i.mounted;
            sound = record {
              magic = i.sound.magic;
              version = i.sound.version;
              total = i.sound.total;
              low = omega arith;
              high = omega arith;
            };
            above = omega arith;
            keeps = i.keeps;
          }),
        )
    | inr e ↦ rw e i
  ]
