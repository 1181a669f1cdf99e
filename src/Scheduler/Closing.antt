-- ===== src/Scheduler/Closing.antt =====
-- kernel/sched/scheduler.c: the frames between the request to close a program and the end of its slot.
use rave_os.Prelude.{
  get_elem?-lt, ap, sym, subst, ℕ, zero, suc, ◌+◌, ◌≤◌, ◌<◌, ◌≡◌, ◌≢◌, inl, inr, refl, ◌∙◌, true,
  false, Option, none, some, get_elem?, length, arith, Bool-cases, get_elem?-set_self,
  get_elem?-set_ne, ◌==◌, ltb,
}
use native.Mathlib.Decide.{ℕ_discrete}
use rave_os.Scheduler.{
  empty, ready, Program, Table, is_ready, stack_canary, grace_frames, before_switch, slice, turn,
  tick_from, tick,
}

-- `run` is what the programs do with their slices; none of them touches the slot looked at: its own
-- program never returns, and no other one reserves it.
module _ (run : ℕ → Table → Table) (slot : ℕ)
    (calm : (at : ℕ) (t : Table)
      → get_elem? (run at t).programs slot ≡ get_elem? t.programs slot) where
  -- One turn, of another slot and of this one.
  turn_other :
      (o : Option Program) (at : ℕ) (t : Table)
      → at ≢ slot
      → get_elem? (turn run o at t).programs slot ≡ get_elem? t.programs slot
  unfolding slice
  turn_other none at t ne = refl
  turn_other (some p) at t ne = elim (Bool-cases (is_ready (before_switch p).state)) [
    | inl e ↦ rw e (calm at _ ∙ get_elem?-set_ne t.programs at slot _ ne)
    | inr e ↦ rw e (get_elem?-set_ne t.programs at slot _ ne)
  ]

  turn_own :
      (p : Program) (t : Table)
      → slot < length t.programs
      → get_elem? (turn run (some p) slot t).programs slot ≡ some (before_switch p)
  unfolding slice
  turn_own p t h = elim (Bool-cases (is_ready (before_switch p).state)) [
    | inl e ↦ rw e (calm slot _ ∙ get_elem?-set_self t.programs slot _ h)
    | inr e ↦ rw e (get_elem?-set_self t.programs slot _ h)
  ]

  tick_from_passed :
      (n at : ℕ) (t : Table)
      → slot < at
      → get_elem? (tick_from run n at t).programs slot ≡ get_elem? t.programs slot
  unfolding tick_from
  tick_from_passed zero at t h = refl
  tick_from_passed (suc n) at t h =
      tick_from_passed n (at + 1) _ (omega arith)
      ∙ turn_other (get_elem? t.programs at) at t (omega arith)

  tick_from_own :
      (n at : ℕ) (t : Table) (p : Program)
      → at ≤ slot
      → slot < at + n
      → get_elem? t.programs slot ≡ some p
      → get_elem? (tick_from run n at t).programs slot ≡ some (before_switch p)
  unfolding tick_from
  tick_from_own zero at t p lo hi e = absurd (omega arith)
  tick_from_own (suc n) at t p lo hi e = elim (ℕ_discrete at slot) [
    | yes same ↦
        tick_from_passed n (at + 1) _ (omega arith)
        ∙ subst
            (λ m.
              get_elem? (turn run (get_elem? t.programs m) m t).programs slot
              ≡ some (before_switch p))
            (sym same)
            (ap (λ o. get_elem? (turn run o slot t).programs slot) e
              ∙ turn_own p t (get_elem?-lt t.programs slot e))
    | no ne ↦
        tick_from_own n (at + 1) _ p (omega (arith, ne)) (omega arith)
          (turn_other (get_elem? t.programs at) at t ne ∙ e)
  ]

  tick_own :
      (t : Table) (p : Program)
      → slot < 4
      → get_elem? t.programs slot ≡ some p
      → get_elem? (tick run t).programs slot ≡ some (before_switch p)
  unfolding tick
  tick_own t p h e = tick_from_own 4 0 t p (omega arith) (omega arith) e

  unfoldable pub ticks : ℕ → Table → Table
  ticks zero t = t
  ticks (suc n) t = ticks n (tick run t)

  -- The program in the slot, `k` frames after it was asked to close.
  abbrev pub waiting : Program → ℕ → Program
  waiting p k = record p { state = ready; close_requested_frame = some k }

  abbrev pub closed : Program → ℕ → Program
  closed p k = record p { state = empty; close_requested_frame = some k }

  before_switch_waits :
      (p : Program) (k : ℕ)
      → (p.canary == stack_canary) ≡ true
      → k < grace_frames
      → before_switch (waiting p k) ≡ waiting p (k + 1)
  unfolding before_switch
  before_switch_waits p k c h =
      let early : ltb 60 (k + 1) ≡ false = ground arith in rw (early, c) refl

  before_switch_closes :
      (p : Program) (k : ℕ) → k ≡ grace_frames → before_switch (waiting p k) ≡ closed p (k + 1)
  unfolding before_switch
  before_switch_closes p k h = let late : ltb 60 (k + 1) ≡ true = ground arith in rw late refl

  -- The ticks up to frame 60, and the one after them.
  ticks_close :
      (n k : ℕ) (t : Table) (p : Program)
      → slot < 4
      → (p.canary == stack_canary) ≡ true
      → get_elem? t.programs slot ≡ some (waiting p k)
      → k + n ≤ grace_frames
      → (get_elem? (ticks n t).programs slot ≡ some (waiting p (k + n)))
        × (k + n ≡ grace_frames
            → get_elem? (tick run (ticks n t)).programs slot ≡ some (closed p 61))
  unfolding ticks
  ticks_close zero k t p h c e b = (
    subst (λ m. get_elem? t.programs slot ≡ some (waiting p m))
        (let e0 : k ≡ k + 0 = omega arith in e0) e,
    λ last.
        tick_own t (waiting p k) h e
        ∙ ap some (before_switch_closes p k (omega arith))
        ∙ ap (λ m. some (closed p m)) (let e0 : k + 1 ≡ 61 = omega arith in e0),
  )
  ticks_close (suc n) k t p h c e b =
      let later =
        ticks_close n (k + 1) (tick run t) p h c
          (tick_own t (waiting p k) h e ∙ ap some (before_switch_waits p k c (omega arith)))
          (omega arith) in
      (
        subst (λ m. get_elem? (ticks n (tick run t)).programs slot ≡ some (waiting p m))
            (let e0 : k + 1 + n ≡ k + suc n = omega arith in e0) later.0,
        λ last. later.1 (omega arith),
      )

  -- A program in one of the four slots that has an intact canary, was asked to close `k` frames ago,
  -- does not return by itself and whose slot no slice touches: it is still ready when 60 frames have
  -- passed, `n` ticks later, and the next tick frees its slot.
  pub ticks_closed :
      (n k : ℕ) (t : Table) (p : Program)
      → slot < 4
      → (p.canary == stack_canary) ≡ true
      → get_elem? t.programs slot ≡ some (waiting p k)
      → k + n ≡ grace_frames
      → (get_elem? (ticks n t).programs slot ≡ some (waiting p 60))
        × (get_elem? (tick run (ticks n t)).programs slot ≡ some (closed p 61))
  ticks_closed n k t p h c e last =
      let both = ticks_close n k t p h c e (omega arith) in
      (
        subst (λ m. get_elem? (ticks n t).programs slot ≡ some (waiting p m)) last both.0,
        both.1 last,
      )
