-- ===== src/Fs/Disk.antt =====
-- kernel/fs/fs.c: the state of the filesystem and the sectors below it. The drive is hardware: what
-- its transfers do is the list of faults that it has in store, over which every theorem
-- quantifies (an empty list is a drive that works from now on).
use rave_os.Prelude.{
  ℕ, ◌+◌, ◌-◌, ◌*◌, ◌/◌, ◌%◌, Bool, true, false, Option, none, some, List, [], ◌∷◌, ◌++◌, ◌==◌,
  if◌then◌else◌, length, replicate, get_or,
}

-- ATA_SECTOR_SIZE
abbrev pub sector_size : ℕ
sector_size = 512

-- FS_MAGIC
abbrev pub fs_magic : ℕ
fs_magic = 0x45564152

-- FS_VERSION
abbrev pub fs_version : ℕ
fs_version = 2

-- FS_TOTAL_SECTORS
abbrev pub total_sectors : ℕ
total_sectors = 2048

-- FS_RESERVED_TAIL_SECTORS
abbrev pub reserved_tail : ℕ
reserved_tail = 1

-- FS_SUPERBLOCK_LBA
abbrev pub superblock_lba : ℕ
superblock_lba = 0

-- FS_ROOT_LBA
abbrev pub root_lba : ℕ
root_lba = 1

-- FS_DATA_START_LBA
abbrev pub data_start : ℕ
data_start = 2

-- `struct fs_superblock`
pub record Superblock : Type 0 where
  pub magic : ℕ
  pub version : ℕ
  pub total : ℕ
  pub next_free : ℕ

-- A transfer works, is refused before any data moves, or moves its data and then reports an error
-- (a write whose cache flush times out).
pub data Fault : Type 0 where
  healthy refused unflushed : Fault

-- The drive's sectors and the static variables `sb` and `mounted`.
pub record State : Type 0 where
  pub sectors : ℕ → List ℕ
  pub faults : List Fault
  pub sb : Superblock
  pub mounted : Bool

-- `fail` is the return value -1.
pub data Result (A : Type 0) : Type 0 where
  ok : A → Result A
  fail : Result A

-- A failure keeps the changes made before it.
abbrev pub M : Type 0 → Type 0
M A = State → Result A × State

abbrev pub and_then : {A B : Type 0} → Result A × State → (A → M B) → Result B × State
and_then (ok a, s) f = f a s
and_then (fail, s) f = (fail, s)

infixl 5 ◌>>=◌ ◌>>◌
abbrev pub ◌>>=◌ : {A B : Type 0} → M A → (A → M B) → M B
◌>>=◌ m f s = and_then (m s) f

abbrev pub ◌>>◌ : {B : Type 0} → M (Unit {0}) → M B → M B
m >> k = m >>= λ _. k

abbrev pub pure : {A : Type 0} → A → M A
pure a s = (ok a, s)

abbrev pub fails : {A : Type 0} → M A
fails s = (fail, s)

abbrev pub guard : Bool → M (Unit {0})
guard true s = (ok tt, s)
guard false s = (fail, s)

abbrev pub from_option : {A : Type 0} → Option A → M A
from_option (some a) s = (ok a, s)
from_option none s = (fail, s)

abbrev pub next_fault : List Fault → Fault
next_fault [] = healthy
next_fault (f ∷ fs) = f

abbrev pub later_faults : List Fault → List Fault
later_faults [] = []
later_faults (f ∷ fs) = fs

abbrev pub update : (ℕ → List ℕ) → ℕ → List ℕ → ℕ → List ℕ
update m a b c = if a == c then b else m c

-- A transfer uses up one fault.
abbrev pub advance : State → State
advance s = record s { faults = later_faults s.faults }

abbrev pub with_sector : State → ℕ → List ℕ → State
with_sector s lba buf = record s { sectors = update s.sectors lba buf }

-- `ata_read_sector(ATA_DRIVE_SLAVE, lba, buf)`
unfoldable pub read_sector : ℕ → M (List ℕ)
read_sector lba s = elim (next_fault s.faults) [
  | healthy ↦ (ok (s.sectors lba), advance s)
  | refused ↦ (fail, advance s)
  | unflushed ↦ (fail, advance s)
]

-- `ata_write_sector(ATA_DRIVE_SLAVE, lba, buf)`
unfoldable pub write_sector : ℕ → List ℕ → M (Unit {0})
write_sector lba buf s = elim (next_fault s.faults) [
  | healthy ↦ (ok tt, with_sector (advance s) lba buf)
  | refused ↦ (fail, advance s)
  | unflushed ↦ (fail, with_sector (advance s) lba buf)
]

pub read_cases :
    (P : Result (List ℕ) × State → Type 0) (lba : ℕ) (s : State)
    → P (ok (s.sectors lba), advance s)
    → P (fail, advance s)
    → P (read_sector lba s)
unfolding read_sector
read_cases P lba s worked failed =
    elim (next_fault s.faults)
      as (λ f. P (elim f [
        | healthy ↦ (ok (s.sectors lba), advance s)
        | refused ↦ (fail, advance s)
        | unflushed ↦ (fail, advance s)
      ])) [ healthy ↦ worked | refused ↦ failed | unflushed ↦ failed ]

pub write_cases :
    (P : Result (Unit {0}) × State → Type 0) (lba : ℕ) (buf : List ℕ) (s : State)
    → P (ok tt, with_sector (advance s) lba buf)
    → P (fail, advance s)
    → P (fail, with_sector (advance s) lba buf)
    → P (write_sector lba buf s)
unfolding write_sector
write_cases P lba buf s worked nothing stored =
    elim (next_fault s.faults)
      as (λ f. P (elim f [
        | healthy ↦ (ok tt, with_sector (advance s) lba buf)
        | refused ↦ (fail, advance s)
        | unflushed ↦ (fail, with_sector (advance s) lba buf)
      ])) [ healthy ↦ worked | refused ↦ nothing | unflushed ↦ stored ]

abbrev pub zero_sector : List ℕ
zero_sector = replicate sector_size 0

-- A buffer that is zeroed first and then filled from its start.
unfoldable pub pad : List ℕ → List ℕ
pad b = b ++ replicate (sector_size - length b) 0

-- A `uint32_t` in memory, lowest byte first.
unfoldable pub le32 : ℕ → List ℕ
le32 v = v % 256 ∷ v / 256 % 256 ∷ v / 65536 % 256 ∷ v / 16777216 % 256 ∷ []

unfoldable pub get32 : List ℕ → ℕ
get32 b = get_or b 0 0 + 256 * get_or b 1 0 + 65536 * get_or b 2 0 + 16777216 * get_or b 3 0
