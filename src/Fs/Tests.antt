-- ===== src/Fs/Tests.antt =====
-- Runs of the filesystem on small disks.
use rave_os.Prelude.{
  zero, suc, ◌++◌, ◌≡◌, true, replicate, arith, ℕ, List, [], ◌∷◌, refl, false, codes,
}
use rave_os.Fs.Disk.{ok, State}
use rave_os.Fs.Calls.{Call, init, mkdir, create, append, remove, perform_all}
use rave_os.Fs.Codec.{FitsEntry, AllFit, dirtable_read-dirtable_write}
use rave_os.Fs.Layout.{Entry, dirtable_read, dirtable_write}
use rave_os.Fs.Safety.Steps.{IsSound}
use rave_os.Fs.Walk.{fs_init, fresh_sb}
use rave_os.Fs.Safety.Histories.{Before, perform_all-Before, fs_init-IsSound}

abbrev blank : ℕ → List ℕ
blank lba = []

-- A blank drive before the first mount.
abbrev first_boot : State
first_boot = record { sectors = blank; faults = []; sb = fresh_sb; mounted = false }

abbrev first_calls : List Call
first_calls =
    init
    ∷ mkdir (codes "/A")
    ∷ create (codes "/A/B") (1 ∷ 2 ∷ [])
    ∷ append (codes "/A/B") (3 ∷ [])
    ∷ remove (codes "/A")
    ∷ []

first_boot-Before : Before blank first_boot
first_boot-Before = record { sound = λ e. cc e; tail = λ lba h. refl }

perform_all-Before_example : Before blank (perform_all first_calls first_boot)
perform_all-Before_example = perform_all-Before blank first_calls first_boot first_boot-Before

fs_init-IsSound_example : ((fs_init first_boot).mounted ≡ true) × IsSound (fs_init first_boot).sb
fs_init-IsSound_example = fs_init-IsSound first_boot

abbrev a_file : Entry
a_file = record {
  name = codes "NOTES.TXT" ++ replicate 7 0;
  start_lba = 70000;
  size_bytes = 300;
  kind = 0;
}

a_file-FitsEntry : FitsEntry a_file
a_file-FitsEntry = record {
  name = refl;
  start_lba = omega arith;
  size_bytes = omega arith;
  kind = omega arith;
}

replicate-AllFit : (n : ℕ) (e : Entry) → FitsEntry e → AllFit (replicate n e)
replicate-AllFit zero e f = tt
replicate-AllFit (suc n) e f = (f, replicate-AllFit n e f)

dirtable_read-dirtable_write_example :
    (dirtable_read 1 (dirtable_write 1 (replicate 20 a_file) first_boot).1).0
    ≡ ok (replicate 20 a_file)
dirtable_read-dirtable_write_example =
    dirtable_read-dirtable_write 1 (replicate 20 a_file) first_boot refl
      (replicate-AllFit 20 a_file a_file-FitsEntry) refl
