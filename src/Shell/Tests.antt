-- ===== src/Shell/Tests.antt =====
-- A session at the shell on a blank drive.
use rave_os.Prelude.{ℕ, true, false, List, [], ◌∷◌, ◌≡◌, refl, codes, arith}
use rave_os.Fs.Path.{slash}
use rave_os.Fs.Disk.{State}
use rave_os.Shell.Line.{append}
use rave_os.Shell.Paths.{case_correct, correct_from, corrected}
use rave_os.Shell.Commands.{Outcome, eval_lines}
use rave_os.Fs.Walk.{fresh_sb}
use rave_os.Shell.Commands.{init}
use rave_os.Shell.Bounds.{OutcomeOk, eval_lines-OutcomeOk}
use rave_os.Shell.Fuel.{Ended, case_correct-enough}

abbrev blank : ℕ → List ℕ
blank lba = []

abbrev first_boot : State
first_boot = record { sectors = blank; faults = []; sb = fresh_sb; mounted = false }

abbrev at_first : Outcome
at_first = record { shell = init; out = []; fs = first_boot }

abbrev session : List (List ℕ)
session = codes "mkdir games" ∷ codes "cd GAMES" ∷ codes "rm ../x" ∷ [] ∷ codes "foo" ∷ []

eval_lines-OutcomeOk_example : OutcomeOk 512 (eval_lines 512 at_first session)
unfolding init append
eval_lines-OutcomeOk_example =
    eval_lines-OutcomeOk 512 session at_first (omega arith) ((refl, omega arith), omega arith)

case_correct-enough_example :
    (let r = correct_from 40 true (slash ∷ []) (codes "home/notes") first_boot in
      Ended r.0
      × ((corrected 80 (codes "/home/notes") r.0, r.1)
          ≡ case_correct 80 true (codes "/home/notes") first_boot))
case_correct-enough_example =
    case_correct-enough 40 80 true (codes "/home/notes") first_boot (omega arith)
