-- ===== src/Fs/Selftest.antt =====
-- kernel/fs/fs.c: the self test, which returns a text for the screen.
use rave_os.Prelude.{ℕ, Bool, true, false, List, [], ◌∷◌, ◌==◌, ◌&&◌, if◌then◌else◌, codes}
use rave_os.Fs.Disk.{State, Result, ok, fail}
use rave_os.Fs.Walk.{fs_init}
use rave_os.Fs.Files.{create_dir, create_file, read_file}

-- FS_SELFTEST_DIR, FS_SELFTEST_PATH, `fs_selftest_content`
abbrev pub selftest_dir : List ℕ
selftest_dir = codes "/TESTDIR"

abbrev pub selftest_path : List ℕ
selftest_path = codes "/TESTDIR/NESTED.TXT"

abbrev pub selftest_content : List ℕ
selftest_content = codes "RAVE-OS FS OK"

-- `content_matches` against `expected`: the same length and the same bytes.
unfoldable pub content_matches : List ℕ → List ℕ → Bool
content_matches [] [] = true
content_matches [] (c ∷ expected) = false
content_matches (b ∷ bytes) [] = false
content_matches (b ∷ bytes) (c ∷ expected) = b == c && content_matches bytes expected

abbrev pub verdict : List ℕ → List ℕ
verdict bytes =
    if content_matches bytes selftest_content then codes "FS: OK" else codes "FS: MISMATCH"

abbrev pub read_again : Result (List ℕ) × State → List ℕ × State
read_again (ok bytes, s) = (verdict bytes, s)
read_again (fail, s) = (codes "FS: READ FAIL", s)

abbrev pub after_create : Result (Unit {0}) × State → List ℕ × State
after_create (ok done, s) = read_again (read_file selftest_path 64 s)
after_create (fail, s) = (codes "FS: WRITE FAIL", s)

abbrev pub after_mkdir : Result (Unit {0}) × State → List ℕ × State
after_mkdir (ok done, s) = after_create (create_file selftest_path selftest_content s)
after_mkdir (fail, s) = (codes "FS: MKDIR FAIL", s)

abbrev pub after_read : Result (List ℕ) × State → List ℕ × State
after_read (ok bytes, s) = (verdict bytes, s)
after_read (fail, s) = after_mkdir (create_dir selftest_dir s)

unfoldable pub selftest : State → List ℕ × State
selftest s = after_read (read_file selftest_path 64 (fs_init s))
