-- ===== src/Scheduler.antt =====
-- kernel/sched/scheduler.c, the cooperative scheduler. A slot's stack is its lowest word, the canary.
-- What a program does with its slice is the parameter `run`: it gets the slot and the table, and
-- returns the table as it is when control comes back, by `scheduler_yield` or by the trampoline.
mod Closing
mod Tests
use rave_os.Prelude.{
  ℕ, zero, suc, ◌+◌, Bool, true, false, Option, none, some, List, [], ◌∷◌, ◌==◌, ltb, leb,
  if◌then◌else◌, get_elem?, set, not, ◌||◌,
}

-- MAX_PROGRAMS
abbrev pub max_programs : ℕ
max_programs = 4

-- SCHEDULER_CLOSE_GRACE_FRAMES
abbrev pub grace_frames : ℕ
grace_frames = 60

-- STACK_CANARY
abbrev pub stack_canary : ℕ
stack_canary = 0xC0FFEE

-- `enum program_state`
pub data ProgramState : Type 0 where
  empty reserved ready : ProgramState

-- `struct program` with its stack's canary; `close_requested_frame` is -1 as `none`. An entry point
-- is a number, its address.
pub record Program : Type 0 where
  pub state : ProgramState
  pub name : List ℕ
  pub entry : ℕ
  pub arg : ℕ
  pub close_requested_frame : Option ℕ
  pub canary : ℕ

-- The static variables `programs` and `running_slot` (-1 as `none`).
pub record Table : Type 0 where
  pub programs : List Program
  pub running_slot : Option ℕ

abbrev pub is_empty : ProgramState → Bool
is_empty empty = true
is_empty _ = false

abbrev pub is_ready : ProgramState → Bool
is_ready ready = true
is_ready _ = false

abbrev pub reserved_program : Program → List ℕ → Program
reserved_program p name = record p {
  state = reserved;
  name = name;
  close_requested_frame = none;
  canary = stack_canary;
}

-- The loop of `scheduler_reserve` from slot `i`: the programs, and the slot that was free.
unfoldable pub reserve_from : ℕ → List ℕ → List Program → Option ℕ × List Program
reserve_from i name [] = (none, [])
reserve_from i name (p ∷ ps) =
    let rest = reserve_from (i + 1) name ps in
    if is_empty p.state then (some i, reserved_program p name ∷ ps) else (rest.0, p ∷ rest.1)

unfoldable pub reserve : List ℕ → Table → Option ℕ × Table
unfolding reserve_from
reserve name t = let r = reserve_from 0 name t.programs in (r.0, record t { programs = r.1 })

abbrev pub change : (Program → Program) → Option Program → ℕ → List Program → List Program
change f none slot ps = ps
change f (some p) slot ps = set ps slot (f p)

-- `programs[slot]` changed by `f`; a slot out of range changes nothing.
abbrev pub change_at : (Program → Program) → ℕ → Table → Table
change_at f slot t = record t { programs = change f (get_elem? t.programs slot) slot t.programs }

unfoldable pub activate : ℕ → ℕ → ℕ → Table → Table
activate slot entry arg t =
    if leb max_programs slot
    then t
    else change_at (λ p. record p { entry = entry; arg = arg; state = ready }) slot t

unfoldable pub request_close : ℕ → Table → Table
request_close slot t = if leb max_programs slot then t else change_at asked slot t
  where
    asked : Program → Program
    asked p =
        if is_ready p.state
        then elim p.close_requested_frame [
          | none ↦ record p { close_requested_frame = some 0 }
          | some n ↦ p
        ]
        else p

unfoldable pub any_active : List Program → Bool
any_active [] = false
any_active (p ∷ ps) = not (is_empty p.state) || any_active ps

-- The part of a slot's turn before the switch: one more frame since the request, and the slot is
-- freed if its time is up or its canary is gone.
abbrev pub counted : Option ℕ → Option ℕ
counted none = none
counted (some n) = some (n + 1)

abbrev pub expired : Option ℕ → Bool
expired none = false
expired (some n) = ltb grace_frames n

unfoldable pub before_switch : Program → Program
before_switch p =
    let p' : Program = record p { close_requested_frame = counted p.close_requested_frame } in
    if is_ready p.state
    then if expired p'.close_requested_frame || not (p.canary == stack_canary)
      then record p' { state = empty }
      else p'
    else p

module _ (run : ℕ → Table → Table) where
  -- The slice: `running_slot` is set around it.
  unfoldable pub slice : ℕ → Table → Table
  slice slot t = record (run slot (record t { running_slot = some slot })) { running_slot = none }

  abbrev pub turn : Option Program → ℕ → Table → Table
  turn none slot t = t
  turn (some p) slot t =
      let p' = before_switch p in
      let t' : Table = record t { programs = set t.programs slot p' } in
      if is_ready p'.state then slice slot t' else t'

  -- The loop of `scheduler_tick` from `slot` on, with `n` slots left.
  unfoldable pub tick_from : ℕ → ℕ → Table → Table
  unfolding slice before_switch
  tick_from zero slot t = t
  tick_from (suc n) slot t = tick_from n (slot + 1) (turn (get_elem? t.programs slot) slot t)

  unfoldable pub tick : Table → Table
  unfolding tick_from
  tick t = tick_from max_programs 0 t
