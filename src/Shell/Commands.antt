-- ===== src/Shell/Commands.antt =====
-- kernel/gui/shell.c: the commands, and `shell_eval_line`. A command gives the output so far with its
-- own added, and the state of the filesystem that it leaves.
use rave_os.Prelude.{ℕ, ◌-◌, Bool, true, false, List, [], ◌∷◌, ◌==◌, if◌then◌else◌, length, codes}
use rave_os.Fs.Names.{copy_chars}
use rave_os.Fs.Disk.{State, Result, ok, fail, M}
use rave_os.Fs.Layout.{type_dir}
use rave_os.Fs.Files.{read_file, create_dir}
use rave_os.Fs.Manage.{delete, move, copy_file}
use rave_os.Fs.Listing.{Dirent, list_dir}
use rave_os.Shell.Line.{append, format_uint, token_is, arg_of, first_word, two_args}
use rave_os.Shell.Paths.{Shell, path_max, list_max, resolve_as}

-- The shell, the output and the filesystem after a command.
pub record Outcome : Type 0 where
  pub shell : Shell
  pub out : List ℕ
  pub fs : State

-- A failed call adds its message to the output, a successful one nothing.
abbrev pub told : {A : Type 0} → ℕ → List ℕ → List ℕ → Result A → List ℕ
told cap out message (ok a) = out
told cap out message fail = append cap out message

-- One entry's line, without the newline before it.
unfoldable pub list_entry : ℕ → List ℕ → Dirent → List ℕ
unfolding append copy_chars format_uint
list_entry cap sofar e =
    let named = append cap sofar (copy_chars (length e.name) e.name) in
    if e.kind == type_dir
    then append cap named (codes "/")
    else append cap (append cap (append cap named (codes " ")) (format_uint e.size_bytes))
        (codes "B")

unfoldable pub list_rows : ℕ → Bool → List ℕ → List Dirent → List ℕ
unfolding list_entry append
list_rows cap first sofar [] = sofar
list_rows cap first sofar (e ∷ es) =
    list_rows cap false (list_entry cap (if first then sofar else append cap sofar (codes "\n")) e)
      es

-- SHELL_CAT_BUF_SIZE
abbrev pub cat_buf_size : ℕ
cat_buf_size = 512

module _ (sh : Shell) (cap : ℕ) (out : List ℕ) where
  -- The outcome of a command that leaves the shell's directory.
  abbrev pub outcome : List ℕ × State → Outcome
  outcome r = record { shell = sh; out = r.0; fs = r.1 }

  -- `shell_cmd_cd`
  abbrev pub moved : List ℕ → Result (List Dirent) × State → Outcome
  moved target (ok entries, s) = record {
    shell = record { cwd = append path_max [] target };
    out = out;
    fs = s;
  }
  moved target (fail, s) = outcome (append cap out (codes "cd: no such directory"), s)

  unfoldable pub cmd_cd : List ℕ → State → Outcome
  unfolding append resolve_as list_dir
  cmd_cd [] s = record {
    shell = record { cwd = append path_max [] (codes "/HOME") };
    out = out;
    fs = s;
  }
  cmd_cd (c ∷ arg) s =
      let target = resolve_as true sh (c ∷ arg) s in
      moved target.0 (list_dir target.0 list_max target.1)

  abbrev pub listed : Result (List Dirent) × State → List ℕ × State
  listed (fail, s) = (append cap out (codes "ls: no such directory"), s)
  listed (ok [], s) = (append cap out (codes "(EMPTY)"), s)
  listed (ok (e ∷ es), s) = (list_rows cap true out (e ∷ es), s)

  -- `shell_cmd_ls`
  unfoldable pub ls_target : List ℕ → State → List ℕ × State
  unfolding append resolve_as
  ls_target [] s = (append path_max [] sh.cwd, s)
  ls_target (c ∷ arg) s = resolve_as true sh (c ∷ arg) s

  unfoldable pub cmd_ls : List ℕ → State → Outcome
  unfolding ls_target list_dir list_rows
  cmd_ls arg s =
      let target = ls_target arg s in outcome (listed (list_dir target.0 list_max target.1))

  abbrev pub shown : Result (List ℕ) × State → List ℕ × State
  shown (fail, s) = (append cap out (codes "cat: read failed"), s)
  shown (ok [], s) = (append cap out (codes "(EMPTY FILE)"), s)
  shown (ok (b ∷ bytes), s) = (append cap out (copy_chars (length (b ∷ bytes)) (b ∷ bytes)), s)

  -- `shell_cmd_cat`
  unfoldable pub cmd_cat : List ℕ → State → Outcome
  unfolding append resolve_as read_file copy_chars
  cmd_cat [] s = outcome (append cap out (codes "cat: read failed"), s)
  cmd_cat (c ∷ arg) s =
      let target = resolve_as true sh (c ∷ arg) s in
      outcome (shown (read_file target.0 (cat_buf_size - 1) target.1))

  abbrev pub reported : {A : Type 0} → List ℕ → Result A × State → Outcome
  reported message (r, s) = outcome (told cap out message r, s)

  -- `shell_cmd_mkdir`
  unfoldable pub cmd_mkdir : List ℕ → State → Outcome
  unfolding append resolve_as create_dir
  cmd_mkdir [] s = outcome (append cap out (codes "mkdir: failed"), s)
  cmd_mkdir (c ∷ arg) s =
      let target = resolve_as false sh (c ∷ arg) s in
      reported (codes "mkdir: failed") (create_dir target.0 target.1)

  -- `shell_cmd_rm`
  unfoldable pub cmd_rm : List ℕ → State → Outcome
  unfolding append resolve_as delete
  cmd_rm [] s = outcome (append cap out (codes "rm: failed"), s)
  cmd_rm (c ∷ arg) s =
      let target = resolve_as true sh (c ∷ arg) s in
      reported (codes "rm: failed") (delete target.0 target.1)

  -- The common body of `shell_cmd_mv` and `shell_cmd_cp`, with both arguments there or one missing.
  unfoldable pub with_two :
      List ℕ → (List ℕ → List ℕ → M (Unit {0})) → List ℕ × List ℕ → State → Outcome
  unfolding append resolve_as
  with_two message call ([], second) s = outcome (append cap out message, s)
  with_two message call (c ∷ first, []) s = outcome (append cap out message, s)
  with_two message call (c ∷ first, d ∷ second) s =
      let src = resolve_as true sh (c ∷ first) s in
      let dest = resolve_as true sh (d ∷ second) src.1 in
      reported message (call src.0 dest.0 dest.1)

  -- `shell_cmd_mv` and `shell_cmd_cp`
  unfoldable pub cmd_mv : List ℕ → State → Outcome
  unfolding with_two two_args move
  cmd_mv arg s = with_two (codes "mv: failed") move (two_args path_max arg) s

  unfoldable pub cmd_cp : List ℕ → State → Outcome
  unfolding with_two two_args copy_file
  cmd_cp arg s = with_two (codes "cp: failed") copy_file (two_args path_max arg) s

-- `shell_init`
unfoldable pub init : Shell
unfolding append
init = record { cwd = append path_max [] (codes "/") }

-- The command of a line that is not empty. It starts with an empty output.
unfoldable pub dispatch : Shell → ℕ → List ℕ → State → Outcome
unfolding append token_is arg_of first_word cmd_cd cmd_ls cmd_cat cmd_mkdir cmd_rm cmd_mv cmd_cp
dispatch sh cap line s =
    if token_is line (codes "pwd")
    then outcome sh cap [] (append cap [] sh.cwd, s)
    else if token_is line (codes "cd")
    then cmd_cd sh cap [] (arg_of line (codes "cd")) s
    else if token_is line (codes "ls")
    then cmd_ls sh cap [] (arg_of line (codes "ls")) s
    else if token_is line (codes "cat")
    then cmd_cat sh cap [] (arg_of line (codes "cat")) s
    else if token_is line (codes "mkdir")
    then cmd_mkdir sh cap [] (arg_of line (codes "mkdir")) s
    else if token_is line (codes "rm")
    then cmd_rm sh cap [] (arg_of line (codes "rm")) s
    else if token_is line (codes "mv")
    then cmd_mv sh cap [] (arg_of line (codes "mv")) s
    else if token_is line (codes "cp")
    then cmd_cp sh cap [] (arg_of line (codes "cp")) s
    else if token_is line (codes "echo")
    then outcome sh cap [] (append cap [] (arg_of line (codes "echo")), s)
    else outcome sh cap []
        (append cap (append cap [] (first_word 16 line)) (codes ": command not found"), s)

-- `shell_eval_line`, which also ends the output with a NUL.
unfoldable pub eval_line : ℕ → Shell → List ℕ → State → Outcome
unfolding dispatch
eval_line cap sh [] s = outcome sh cap [] ([], s)
eval_line cap sh (c ∷ line) s = dispatch sh cap (c ∷ line) s

-- A session: each line with the shell and the filesystem that the ones before it left.
unfoldable pub eval_lines : ℕ → Outcome → List (List ℕ) → Outcome
eval_lines cap o [] = o
eval_lines cap o (line ∷ lines) = eval_lines cap (eval_line cap o.shell line o.fs) lines
