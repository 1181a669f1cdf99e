-- ===== src/Scheduler/Tests.antt =====
-- A run of the scheduler.
use rave_os.Prelude.{ℕ, ◌≡◌, refl, none, some, [], ◌∷◌, get_elem?, arith, codes}
use rave_os.Scheduler.{Program, Table, ready, empty, stack_canary, tick}
use rave_os.Scheduler.Closing.{ticks, waiting, closed, ticks_closed}

-- Programs that yield at once.
abbrev yielding : ℕ → Table → Table
yielding at t = t

abbrev no_program : Program
no_program = record {
  state = empty;
  name = [];
  entry = 0;
  arg = 0;
  close_requested_frame = none;
  canary = stack_canary;
}

abbrev asked_program : Program
asked_program = record {
  state = ready;
  name = codes "GAME";
  entry = 4096;
  arg = 0;
  close_requested_frame = some 58;
  canary = stack_canary;
}

abbrev two_programs : Table
two_programs = record {
  programs = no_program ∷ asked_program ∷ no_program ∷ no_program ∷ [];
  running_slot = none;
}

ticks_closed_example :
    (get_elem? (ticks yielding 1 (λ at t. refl) 2 two_programs).programs 1
      ≡ some (waiting yielding 1 (λ at t. refl) asked_program 60))
    × (get_elem? (tick yielding (ticks yielding 1 (λ at t. refl) 2 two_programs)).programs 1
        ≡ some (closed yielding 1 (λ at t. refl) asked_program 61))
ticks_closed_example =
    ticks_closed yielding 1 (λ at t. refl) 2 58 two_programs asked_program (omega arith) refl refl
      (omega arith)
