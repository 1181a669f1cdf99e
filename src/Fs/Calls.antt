-- ===== src/Fs/Calls.antt =====
-- The calls that kernel/fs/fs.h offers, as data, and a history of them.
use rave_os.Prelude.{ℕ, List, [], ◌∷◌}
use rave_os.Fs.Disk.{State}
use rave_os.Fs.Walk.{fs_init}
use rave_os.Fs.Files.{create_dir, create_file, append_file, read_file}
use rave_os.Fs.Manage.{delete, rename, move, copy_file}
use rave_os.Fs.Listing.{list_dir, bootstrap_dirs}
use rave_os.Fs.Selftest.{selftest}

pub data Call : Type 0 where
  init bootstrap self_test : Call
  mkdir : (path : List ℕ) → Call
  create append : (path bytes : List ℕ) → Call
  read list : (path : List ℕ) (room : ℕ) → Call
  remove : (path : List ℕ) → Call
  change_name : (path new_name : List ℕ) → Call
  relocate duplicate : (path dest_dir : List ℕ) → Call

-- The state that a call leaves, whether it succeeds or not.
unfoldable pub perform : Call → State → State
unfolding selftest fs_init bootstrap_dirs create_dir create_file append_file read_file list_dir
    delete rename move copy_file
perform init s = fs_init s
perform bootstrap s = bootstrap_dirs s
perform self_test s = (selftest s).1
perform (mkdir path) s = (create_dir path s).1
perform (create path bytes) s = (create_file path bytes s).1
perform (append path bytes) s = (append_file path bytes s).1
perform (read path room) s = (read_file path room s).1
perform (list path room) s = (list_dir path room s).1
perform (remove path) s = (delete path s).1
perform (change_name path new_name) s = (rename path new_name s).1
perform (relocate path dest_dir) s = (move path dest_dir s).1
perform (duplicate path dest_dir) s = (copy_file path dest_dir s).1

unfoldable pub perform_all : List Call → State → State
unfolding perform
perform_all [] s = s
perform_all (c ∷ cs) s = perform_all cs (perform c s)
