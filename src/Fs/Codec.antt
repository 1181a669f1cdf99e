-- ===== src/Fs/Codec.antt =====
-- kernel/fs/fs.c: `struct fs_entry` and the directory tables as bytes.
use rave_os.Prelude.{
  true, ℕ, zero, suc, ◌+◌, ◌*◌, ◌/◌, ◌%◌, ◌^◌, ◌<◌, ◌≡◌, refl, ◌∙◌, ap, List, [], ◌∷◌, ◌++◌, length,
  drop, take-append_len, drop-append_len, arith, get_or, length-append, ◌==◌, subst,
}
use rave_os.Fs.Disk.{
  with_sector, advance, later_faults, State, ok, le32, get32, pad, read_sector, write_sector,
}
use rave_os.Fs.Layout.{
  Entry, encode_entry, decode_entry, encode_entries, decode_entries, dirtable_read, dirtable_write,
  max_files,
}

-- The bytes of a field are its value.
get32_bytes :
    (v : ℕ)
    → v < 4294967296
    → v % 256 + 256 * (v / 256 % 256) + 65536 * (v / 65536 % 256) + 16777216 * (v / 16777216 % 256)
      ≡ v
get32_bytes v h = omega arith

get32-le32 : (v : ℕ) (rest : List ℕ) → v < 2 ^ 32 → get32 (le32 v ++ rest) ≡ v
unfolding get32 le32
get32-le32 v rest h = get32_bytes v h

-- An entry whose fields fit their bytes.
pub record FitsEntry (e : Entry) : Type 0 where
  pub name : length e.name ≡ 16
  pub start_lba : e.start_lba < 2 ^ 32
  pub size_bytes : e.size_bytes < 2 ^ 32
  pub kind : e.kind < 256

abbrev pub AllFit : List Entry → Type 0
AllFit [] = Unit {0}
AllFit (e ∷ es) = FitsEntry e × AllFit es

append_assoc : (xs ys zs : List ℕ) → (xs ++ ys) ++ zs ≡ xs ++ (ys ++ zs)
append_assoc [] ys zs = refl
append_assoc (x ∷ xs) ys zs = ap (λ l. x ∷ l) (append_assoc xs ys zs)

drop-append_past : (p m : ℕ) (xs ys : List ℕ) → p ≡ length xs + m → drop p (xs ++ ys) ≡ drop m ys
drop-append_past p m [] ys h = ap (λ n. drop n ys) (let e : p ≡ m = omega arith in e)
drop-append_past zero m (x ∷ xs) ys h = absurd (omega arith)
drop-append_past (suc p) m (x ∷ xs) ys h = drop-append_past p m xs ys (omega arith)

-- An entry decoded from its name and the bytes after it.
decoded :
    (e : Entry) (bytes : List ℕ)
    → length e.name ≡ 16
    → get32 bytes ≡ e.start_lba
    → get32 (drop 4 bytes) ≡ e.size_bytes
    → get_or (drop 8 bytes) 0 0 ≡ e.kind
    → decode_entry (e.name ++ bytes) ≡ e
unfolding decode_entry
decoded e bytes h start size kind =
    rw
      (
        take-append_len 16 e.name bytes h,
        drop-append_len 16 e.name bytes h,
        drop-append_past 20 4 e.name bytes (omega arith),
        drop-append_past 24 8 e.name bytes (omega arith),
        start,
        size,
        kind,
      )
      refl

decode_entry-encode_entry :
    (e : Entry) (rest : List ℕ) → FitsEntry e → decode_entry (encode_entry e ++ rest) ≡ e
unfolding encode_entry le32
decode_entry-encode_entry e rest f =
    ap decode_entry (append_assoc e.name _ rest)
    ∙ decoded e _ f.name (get32-le32 e.start_lba _ f.start_lba)
        (get32-le32 e.size_bytes _ f.size_bytes)
        (let k : e.kind % 256 ≡ e.kind = omega (arith, f.kind) in k)

length-encode_entry : (e : Entry) → FitsEntry e → length (encode_entry e) ≡ 25
unfolding encode_entry le32
length-encode_entry e f = omega (arith, length-append e.name _, f.name)

decode_entries-encode_entries :
    (es : List Entry) (rest : List ℕ)
    → AllFit es
    → decode_entries (length es) (encode_entries es ++ rest) ≡ es
unfolding decode_entries encode_entries
decode_entries-encode_entries [] rest f = refl
decode_entries-encode_entries (e ∷ es) rest f =
    ap (λ b. decode_entry b ∷ decode_entries (length es) (drop 25 b))
      (append_assoc (encode_entry e) (encode_entries es) rest)
    ∙ ap
        (λ x.
          x ∷ decode_entries (length es) (drop 25 (encode_entry e ++ (encode_entries es ++ rest))))
        (decode_entry-encode_entry e (encode_entries es ++ rest) f.0)
    ∙ ap (λ b. e ∷ decode_entries (length es) b)
        (drop-append_len 25 (encode_entry e) (encode_entries es ++ rest)
          (length-encode_entry e f.0))
    ∙ ap (λ l. e ∷ l) (decode_entries-encode_entries es rest f.1)

pad_table :
    (es : List Entry) → AllFit es → decode_entries (length es) (pad (encode_entries es)) ≡ es
unfolding pad
pad_table es f = decode_entries-encode_entries es _ f

abbrev written : ℕ → List Entry → State → State
written lba es s = with_sector (advance s) lba (pad (encode_entries es))

dirtable_write_works :
    (lba : ℕ) (es : List Entry) (s : State)
    → s.faults ≡ []
    → (dirtable_write lba es s).1 ≡ written lba es s
unfolding dirtable_write write_sector
dirtable_write_works lba es s works = rw works refl

dirtable_read_works :
    (lba : ℕ) (s : State)
    → s.faults ≡ []
    → (dirtable_read lba s).0 ≡ ok (decode_entries max_files (s.sectors lba))
unfolding dirtable_read read_sector
dirtable_read_works lba s works = rw works refl

-- On a drive that works, a table of twenty entries whose fields fit their bytes is read back from
-- its sector as it was written.
pub dirtable_read-dirtable_write :
    (lba : ℕ) (es : List Entry) (s : State)
    → s.faults ≡ []
    → AllFit es
    → length es ≡ max_files
    → (dirtable_read lba (dirtable_write lba es s).1).0 ≡ ok es
dirtable_read-dirtable_write lba es s works f n =
    ap (λ t. (dirtable_read lba t).0) (dirtable_write_works lba es s works)
    ∙ dirtable_read_works lba (written lba es s) (ap later_faults works)
    ∙ ap ok (
        ap (decode_entries max_files) here
        ∙ subst (λ m. decode_entries m (pad (encode_entries es)) ≡ es) n table)
  where
    here : (written lba es s).sectors lba ≡ pad (encode_entries es)
    here = let same : (lba == lba) ≡ true = ground arith in rw same refl

    table : decode_entries (length es) (pad (encode_entries es)) ≡ es
    table = pad_table es f
