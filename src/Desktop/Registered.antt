-- ===== src/Desktop/Registered.antt =====
-- v2/core/kernel/kernel_window.c: which tasks have a window.
use rave_os.Prelude.{
  ℕ, zero, suc, ◌+◌, true, false, Option, none, some, List, [], ◌∷◌, ◌==◌, get_elem?, set, ◌≡◌, ◌≢◌,
  ◌⊎◌, inl, inr, refl, sym, ap, subst, ◌∙◌, eq_of_some, Bool-cases, Option-cases, arith,
}
use rave_os.Desktop.Windows.{
  Window, Windows, is_of, unregister_from, changed, unregister, by_task_from, by_task, fronted,
  bring_to_front,
}
use rave_os.Desktop.Router.{forget}
use native.Mathlib.Decide.{ℕ_discrete}
use rave_os.Desktop.Search.{IsIn}

-- Some window in use of the table is the task's.
abbrev pub IsRegistered : ℕ → List Window → Type 0
IsRegistered t [] = ⊥
IsRegistered t (s ∷ ss) = (is_of t s ≡ true) ⊎ IsRegistered t ss

-- The handle is NULL or a task with a window.
abbrev pub IsHeld : ℕ → Windows → Type 0
IsHeld t ws = (t ≡ 0) ⊎ IsRegistered t ws.slots

pub neq→== : (a b : ℕ) → a ≢ b → (a == b) ≡ false
neq→== a b ne = ground arith

get_elem?-by_task_from :
    (t i : ℕ) (ss : List Window) (f : ℕ × Window)
    → by_task_from t i ss ≡ some f
    → (k : ℕ) × (f.0 ≡ i + k) × (get_elem? ss k ≡ some f.1)
unfolding by_task_from
get_elem?-by_task_from t i [] f e = absurd (cc)
get_elem?-by_task_from t i (s ∷ ss) f e = elim (Bool-cases (is_of t s)) [
  | inl y ↦
      let same = eq_of_some (rw y at e) in
      (0, sym (ap (λ g. g.0) same) ∙ omega arith, ap (λ g. some g.1) same)
  | inr n ↦
      let ih = get_elem?-by_task_from t (i + 1) ss f (rw n at e) in
      (suc ih.0, omega (arith, ih.1), ih.2)
]

pub get_elem?-by_task :
    (t : ℕ) (ws : Windows) (f : ℕ × Window)
    → by_task t ws ≡ some f
    → get_elem? ws.slots f.0 ≡ some f.1
unfolding by_task
get_elem?-by_task t ws f e =
    let r = get_elem?-by_task_from t 0 ws.slots f e in
    subst (λ k. get_elem? ws.slots k ≡ some f.1) (sym (omega (arith, r.1))) r.2

by_task_from-is_of :
    (t i : ℕ) (ss : List Window) (f : ℕ × Window)
    → by_task_from t i ss ≡ some f
    → is_of t f.1 ≡ true
unfolding by_task_from
by_task_from-is_of t i [] f e = absurd (cc)
by_task_from-is_of t i (s ∷ ss) f e = elim (Bool-cases (is_of t s)) [
  | inl y ↦ subst (λ g. is_of t g.1 ≡ true) (eq_of_some (rw y at e)) y
  | inr n ↦ by_task_from-is_of t (i + 1) ss f (rw n at e)
]

pub by_task-is_of :
    (t : ℕ) (ws : Windows) (f : ℕ × Window) → by_task t ws ≡ some f → is_of t f.1 ≡ true
unfolding by_task
by_task-is_of t ws f e = by_task_from-is_of t 0 ws.slots f e

pub IsRegistered-set :
    (t : ℕ) (ss : List Window) (i : ℕ) (s v : Window)
    → get_elem? ss i ≡ some s
    → is_of t s ≡ is_of t v
    → IsRegistered t ss
    → IsRegistered t (set ss i v)
IsRegistered-set t [] i s v at e h = h
IsRegistered-set t (x ∷ ss) zero s v at e (inl h) =
    inl (sym e ∙ ap (is_of t) (sym (eq_of_some at)) ∙ h)
IsRegistered-set t (x ∷ ss) zero s v at e (inr h) = inr h
IsRegistered-set t (x ∷ ss) (suc i) s v at e (inl h) = inl h
IsRegistered-set t (x ∷ ss) (suc i) s v at e (inr h) = inr (IsRegistered-set t ss i s v at e h)

IsRegistered-fronted :
    (t : ℕ) (ws : Windows) (o : Option (ℕ × Window))
    → ((f : ℕ × Window) → o ≡ some f → get_elem? ws.slots f.0 ≡ some f.1)
    → IsRegistered t ws.slots
    → IsRegistered t (fronted ws o).slots
IsRegistered-fronted t ws none at h = h
IsRegistered-fronted t ws (some (i, s)) at h =
    IsRegistered-set t ws.slots i s _ (at (i, s) refl) refl h

is_of-task : (t t' : ℕ) (s : Window) → is_of t s ≡ true → is_of t' s ≡ true → t ≡ t'
is_of-task t t' s h h' = ground arith

IsRegistered-unregister_from :
    (t t' : ℕ) (ss ss' : List Window)
    → t ≢ t'
    → unregister_from t' ss ≡ some ss'
    → IsRegistered t ss
    → IsRegistered t ss'
unfolding unregister_from
IsRegistered-unregister_from t t' [] ss' ne e m = absurd m
IsRegistered-unregister_from t t' (s ∷ ss) ss' ne e m = elim (Bool-cases (is_of t' s)) [
  | inl y ↦ subst (IsRegistered t) (eq_of_some (rw y at e)) (beyond y m)
  | inr n ↦ elim (Option-cases (unregister_from t' ss)) [
    | inl missing ↦ absurd (cc)
    | inr (rest, found) ↦
        subst (IsRegistered t) (eq_of_some (rw (n, found) at e))
          (within rest (λ later. IsRegistered-unregister_from t t' ss rest ne found later) m)
  ]
]
  where
    beyond :
        is_of t' s ≡ true
        → IsRegistered t (s ∷ ss)
        → IsRegistered t (record s { in_use = false; canvas = 0 } ∷ ss)
    beyond y (inl own) = absurd (ne (is_of-task t t' s own y))
    beyond y (inr later) = inr later

    within :
        (rest : List Window)
        → (IsRegistered t ss → IsRegistered t rest)
        → IsRegistered t (s ∷ ss)
        → IsRegistered t (s ∷ rest)
    within rest ih (inl own) = inl own
    within rest ih (inr later) = inr (ih later)

IsRegistered-unregister :
    (t t' : ℕ) (ws : Windows)
    → t ≢ t'
    → IsRegistered t ws.slots
    → IsRegistered t (unregister t' ws).slots
unfolding unregister
IsRegistered-unregister t t' ws ne h = gone (unregister_from t' ws.slots) refl
  where
    gone :
        (o : Option (List Window))
        → unregister_from t' ws.slots ≡ o
        → IsRegistered t (changed ws o).slots
    gone none e = h
    gone (some ss) e = IsRegistered-unregister_from t t' ws.slots ss ne e h

pub IsHeld-forget :
    (t t' : ℕ) (ws : Windows) → IsHeld t ws → IsHeld (forget t' t) (unregister t' ws)
IsHeld-forget t t' ws h = elim (ℕ_discrete t t') [
  | yes same ↦ inl (ground arith)
  | no ne ↦ rw (neq→== t t' ne) (held ne h)
]
  where
    held : t ≢ t' → IsHeld t ws → IsHeld t (unregister t' ws)
    held ne (inl nobody) = inl nobody
    held ne (inr m) = inr (IsRegistered-unregister t t' ws ne m)

pub IsHeld-bring_to_front :
    (t t' : ℕ) (ws : Windows) → IsHeld t ws → IsHeld t (bring_to_front t' ws)
unfolding bring_to_front
IsHeld-bring_to_front t t' ws (inl nobody) = inl nobody
IsHeld-bring_to_front t t' ws (inr m) =
    inr (IsRegistered-fronted t ws (by_task t' ws) (λ f e. get_elem?-by_task t' ws f e) m)

pub IsRegistered-IsIn :
    (ss : List Window) (w : Window) → w.in_use ≡ true → IsIn w ss → IsRegistered w.task ss
IsRegistered-IsIn [] w u m = absurd m
IsRegistered-IsIn (s ∷ ss) w u (inl e) = inl (subst (λ v. is_of w.task v ≡ true) e (ground arith))
IsRegistered-IsIn (s ∷ ss) w u (inr m) = inr (IsRegistered-IsIn ss w u m)
