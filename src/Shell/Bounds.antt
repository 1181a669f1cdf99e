-- ===== src/Shell/Bounds.antt =====
-- kernel/gui/shell.c: the buffers of the shell, `cwd` and the output.
use rave_os.Prelude.{
  ℕ, ◌-◌, ◌<◌, Bool, true, false, List, [], ◌∷◌, ◌==◌, length, refl, if_both, codes, arith,
}
use rave_os.Fs.Names.{copy_chars}
use rave_os.Fs.Disk.{State, Result, ok, fail, M}
use rave_os.Fs.Layout.{type_dir}
use rave_os.Fs.Files.{read_file, create_dir}
use rave_os.Fs.Manage.{delete, move, copy_file}
use rave_os.Fs.Listing.{Dirent, list_dir}
use rave_os.Shell.Line.{append, format_uint, token_is, arg_of, first_word, two_args}
use rave_os.Shell.Paths.{Shell, path_max, list_max, resolve_as}
use rave_os.Shell.Commands.{
  Outcome, outcome, moved, cmd_cd, list_entry, list_rows, listed, ls_target, cmd_ls, cat_buf_size,
  shown, cmd_cat, reported, cmd_mkdir, cmd_rm, with_two, cmd_mv, cmd_cp, dispatch, eval_line,
  eval_lines,
}
use rave_os.Shell.Rooted.{IsWithin, IsRooted, append-IsWithin, copied-IsRooted, resolve_as-IsRooted}

-- The shell's directory is an absolute path that fits its buffer.
abbrev pub ShellOk : Shell → Type 0
ShellOk sh = IsRooted sh.cwd × IsWithin path_max sh.cwd

-- So it is, and the output fits a buffer of `cap` bytes.
abbrev pub OutcomeOk : ℕ → Outcome → Type 0
OutcomeOk size o = ShellOk o.shell × IsWithin size o.out

copied-ShellOk :
    (path : List ℕ) → IsRooted path → ShellOk (record { cwd = append path_max [] path })
copied-ShellOk path h = (copied-IsRooted path h, append-IsWithin path_max [] path (omega arith))

module _ (size : ℕ) where
  list_entry-IsWithin :
      (sofar : List ℕ) (e : Dirent) → IsWithin size sofar → IsWithin size (list_entry size sofar e)
  unfolding list_entry
  list_entry-IsWithin sofar e h =
      let named = append-IsWithin size sofar (copy_chars (length e.name) e.name) h in
      if_both (IsWithin size) (e.kind == type_dir) (append-IsWithin size _ (codes "/") named) (
        append-IsWithin size _ (codes "B") (
          append-IsWithin size _ (format_uint e.size_bytes)
            (append-IsWithin size _ (codes " ") named)))

  list_rows-IsWithin :
      (first : Bool) (sofar : List ℕ) (es : List Dirent)
      → IsWithin size sofar
      → IsWithin size (list_rows size first sofar es)
  unfolding list_rows
  list_rows-IsWithin first sofar [] h = h
  list_rows-IsWithin first sofar (e ∷ es) h = list_rows-IsWithin false _ es (
      list_entry-IsWithin _ e
        (if_both (IsWithin size) first h (append-IsWithin size sofar (codes "\n") h)))

  module _ (sh : Shell) (fits : ShellOk sh) (out : List ℕ) (room : IsWithin size out) where
    message-OutcomeOk :
        (text : List ℕ) (s : State) → OutcomeOk size (outcome sh size out (append size out text, s))
    message-OutcomeOk text s = (fits, append-IsWithin size out text room)

    moved-OutcomeOk :
        (target : List ℕ) (r : Result (List Dirent) × State)
        → IsRooted target
        → OutcomeOk size (moved sh size out target r)
    moved-OutcomeOk target (ok entries, s) h = (copied-ShellOk target h, room)
    moved-OutcomeOk target (fail, s) h = message-OutcomeOk (codes "cd: no such directory") s

    cmd_cd-OutcomeOk : (arg : List ℕ) (s : State) → OutcomeOk size (cmd_cd sh size out arg s)
    unfolding cmd_cd
    cmd_cd-OutcomeOk [] s = (copied-ShellOk (codes "/HOME") refl, room)
    cmd_cd-OutcomeOk (c ∷ arg) s =
        let at = resolve_as true sh (c ∷ arg) s in
        moved-OutcomeOk at.0 (list_dir at.0 list_max at.1)
          (resolve_as-IsRooted true sh (c ∷ arg) s fits.0)

    listed-IsWithin : (r : Result (List Dirent) × State) → IsWithin size (listed sh size out r).0
    listed-IsWithin (fail, s) = append-IsWithin size out (codes "ls: no such directory") room
    listed-IsWithin (ok [], s) = append-IsWithin size out (codes "(EMPTY)") room
    listed-IsWithin (ok (e ∷ es), s) = list_rows-IsWithin true out (e ∷ es) room

    cmd_ls-OutcomeOk : (arg : List ℕ) (s : State) → OutcomeOk size (cmd_ls sh size out arg s)
    unfolding cmd_ls
    cmd_ls-OutcomeOk arg s =
        let at = ls_target sh size out arg s in
        (fits, listed-IsWithin (list_dir at.0 list_max at.1))

    shown-IsWithin : (r : Result (List ℕ) × State) → IsWithin size (shown sh size out r).0
    shown-IsWithin (fail, s) = append-IsWithin size out (codes "cat: read failed") room
    shown-IsWithin (ok [], s) = append-IsWithin size out (codes "(EMPTY FILE)") room
    shown-IsWithin (ok (b ∷ bytes), s) =
        append-IsWithin size out (copy_chars (length (b ∷ bytes)) (b ∷ bytes)) room

    cmd_cat-OutcomeOk : (arg : List ℕ) (s : State) → OutcomeOk size (cmd_cat sh size out arg s)
    unfolding cmd_cat
    cmd_cat-OutcomeOk [] s = message-OutcomeOk (codes "cat: read failed") s
    cmd_cat-OutcomeOk (c ∷ arg) s =
        let at = resolve_as true sh (c ∷ arg) s in
        (fits, shown-IsWithin (read_file at.0 (cat_buf_size - 1) at.1))

    reported-OutcomeOk :
        {A : Type 0} (message : List ℕ) (r : Result A × State)
        → OutcomeOk size (reported sh size out message r)
    reported-OutcomeOk message (ok a, s) = (fits, room)
    reported-OutcomeOk message (fail, s) = message-OutcomeOk message s

    cmd_mkdir-OutcomeOk : (arg : List ℕ) (s : State) → OutcomeOk size (cmd_mkdir sh size out arg s)
    unfolding cmd_mkdir
    cmd_mkdir-OutcomeOk [] s = message-OutcomeOk (codes "mkdir: failed") s
    cmd_mkdir-OutcomeOk (c ∷ arg) s =
        let at = resolve_as false sh (c ∷ arg) s in
        reported-OutcomeOk (codes "mkdir: failed") (create_dir at.0 at.1)

    cmd_rm-OutcomeOk : (arg : List ℕ) (s : State) → OutcomeOk size (cmd_rm sh size out arg s)
    unfolding cmd_rm
    cmd_rm-OutcomeOk [] s = message-OutcomeOk (codes "rm: failed") s
    cmd_rm-OutcomeOk (c ∷ arg) s =
        let at = resolve_as true sh (c ∷ arg) s in
        reported-OutcomeOk (codes "rm: failed") (delete at.0 at.1)

    with_two-OutcomeOk :
        (message : List ℕ) (call : List ℕ → List ℕ → M (Unit {0})) (args : List ℕ × List ℕ)
        (s : State)
        → OutcomeOk size (with_two sh size out message call args s)
    unfolding with_two
    with_two-OutcomeOk message call ([], second) s = message-OutcomeOk message s
    with_two-OutcomeOk message call (c ∷ first, []) s = message-OutcomeOk message s
    with_two-OutcomeOk message call (c ∷ first, d ∷ second) s =
        let src = resolve_as true sh (c ∷ first) s in
        let dest = resolve_as true sh (d ∷ second) src.1 in
        reported-OutcomeOk message (call src.0 dest.0 dest.1)

  dispatch-OutcomeOk :
      (sh : Shell) (line : List ℕ) (s : State)
      → ShellOk sh
      → 0 < size
      → OutcomeOk size (dispatch sh size line s)
  unfolding dispatch cmd_mv cmd_cp
  dispatch-OutcomeOk sh line s fits room =
      if_both (OutcomeOk size) (token_is line (codes "pwd"))
        (message-OutcomeOk sh fits [] room sh.cwd s)
        (if_both (OutcomeOk size) (token_is line (codes "cd"))
          (cmd_cd-OutcomeOk sh fits [] room (arg_of line (codes "cd")) s)
          (if_both (OutcomeOk size) (token_is line (codes "ls"))
            (cmd_ls-OutcomeOk sh fits [] room (arg_of line (codes "ls")) s)
            (if_both (OutcomeOk size) (token_is line (codes "cat"))
              (cmd_cat-OutcomeOk sh fits [] room (arg_of line (codes "cat")) s)
              (if_both (OutcomeOk size) (token_is line (codes "mkdir"))
                (cmd_mkdir-OutcomeOk sh fits [] room (arg_of line (codes "mkdir")) s)
                (if_both (OutcomeOk size) (token_is line (codes "rm"))
                  (cmd_rm-OutcomeOk sh fits [] room (arg_of line (codes "rm")) s)
                  (if_both (OutcomeOk size) (token_is line (codes "mv"))
                    (with_two-OutcomeOk sh fits [] room (codes "mv: failed") move
                      (two_args path_max (arg_of line (codes "mv"))) s)
                    (if_both (OutcomeOk size) (token_is line (codes "cp"))
                      (with_two-OutcomeOk sh fits [] room (codes "cp: failed") copy_file
                        (two_args path_max (arg_of line (codes "cp"))) s)
                      (if_both (OutcomeOk size) (token_is line (codes "echo"))
                        (message-OutcomeOk sh fits [] room (arg_of line (codes "echo")) s)
                        (message-OutcomeOk sh fits (append size [] (first_word 16 line))
                          (append-IsWithin size [] (first_word 16 line) room)
                          (codes ": command not found") s)))))))))

-- If the shell's directory is an absolute path that fits its buffer of 80 bytes, and the output so far
-- fits the output buffer, which has at least one byte, then so it is after every session of typed
-- lines, whatever the filesystem answers.
pub eval_lines-OutcomeOk :
    (size : ℕ) (lines : List (List ℕ)) (o : Outcome)
    → 0 < size
    → OutcomeOk size o
    → OutcomeOk size (eval_lines size o lines)
unfolding eval_lines eval_line
eval_lines-OutcomeOk size [] o room h = h
eval_lines-OutcomeOk size ([] ∷ lines) o room h =
    eval_lines-OutcomeOk size lines (outcome o.shell size [] ([], o.fs)) room (h.0, room)
eval_lines-OutcomeOk size ((c ∷ line) ∷ lines) o room h =
    eval_lines-OutcomeOk size lines (dispatch o.shell size (c ∷ line) o.fs) room
      (dispatch-OutcomeOk size o.shell (c ∷ line) o.fs h.0 room)
