-- ===== src/Desktop/Below.antt =====
-- v2/core/kernel/kernel_router.c: what each sample leaves of the windows' positions.
use rave_os.Prelude.{
  ◌⊎◌, ◌∙◌, ltb_ℤ→le, ℕ, zero, suc, ◌+◌, Bool, true, false, Option, none, some, List, [], ◌∷◌, ◌==◌,
  ◌&&◌, not, set, Every, ◌≡◌, inl, inr, refl, subst, eq_of_some, Bool-cases, Option-cases, if_both,
  arith, ℤ, pos, ◌-ℤ◌, ◌≤ℤ◌, ltb_ℤ,
}
use rave_os.Desktop.Windows.{
  Window, Windows, is_of, unregister_from, changed, unregister, by_task_from, by_task, find_at,
  fronted, bring_to_front,
}
use rave_os.Desktop.Router.{
  key_event, EventType, touch_event, desktop_strip_h, title_bar_h, Router, send, send_touch,
  activate_window, closed, close_window, Sample, send_key, poll_key, track, is_drag, in_strip,
  poll_strip, dragged_to, drag_window, poll_drag, hits_close, press_window, poll_press, poll_hold,
  poll_release, poll_touch, poll, poll_all,
}

-- What holds of each window, whatever its place in the order, and when it moves or goes.
module _ (P : Window → Type 0) (fronts : (s : Window) (z : ℤ) → P s → P (record s { z_order = z }))
    (leaves : (s : Window) → P s → P (record s { in_use = false; canvas = 0 }))
    (drags : (x y : ℤ) (s : Window) → P s → P (dragged_to x y s)) where
  Every-set : (ss : List Window) (i : ℕ) (v : Window) → Every P ss → P v → Every P (set ss i v)
  Every-set [] i v h p = h
  Every-set (s ∷ ss) zero v h p = (p, h.1)
  Every-set (s ∷ ss) (suc i) v h p = (h.0, Every-set ss i v h.1 p)

  by_task_from-found :
      (task i : ℕ) (ss : List Window) (found : ℕ × Window)
      → Every P ss
      → by_task_from task i ss ≡ some found
      → P found.1
  unfolding by_task_from
  by_task_from-found task i [] found h e = absurd (cc)
  by_task_from-found task i (s ∷ ss) found h e = elim (Bool-cases (is_of task s)) [
    | inl y ↦ subst (λ f. P f.1) (eq_of_some (rw y at e)) h.0
    | inr n ↦ by_task_from-found task (i + 1) ss found h.1 (rw n at e)
  ]

  fronted-Every :
      (ws : Windows) (o : Option (ℕ × Window))
      → ((found : ℕ × Window) → o ≡ some found → P found.1)
      → Every P ws.slots
      → Every P (fronted ws o).slots
  fronted-Every ws none at h = h
  fronted-Every ws (some (i, s)) at h =
      Every-set ws.slots i _ h (fronts s ws.next_z (at (i, s) refl))

  bring_to_front-Every :
      (task : ℕ) (ws : Windows) → Every P ws.slots → Every P (bring_to_front task ws).slots
  unfolding bring_to_front by_task
  bring_to_front-Every task ws h =
      fronted-Every ws (by_task task ws) (λ found e. by_task_from-found task 0 ws.slots found h e) h

  unregister_from-Every :
      (task : ℕ) (ss ss' : List Window)
      → Every P ss
      → unregister_from task ss ≡ some ss'
      → Every P ss'
  unfolding unregister_from
  unregister_from-Every task [] ss' h e = absurd (cc)
  unregister_from-Every task (s ∷ ss) ss' h e = elim (Bool-cases (is_of task s)) [
    | inl y ↦ subst (Every P) (eq_of_some (rw y at e)) (leaves s h.0, h.1)
    | inr n ↦ elim (Option-cases (unregister_from task ss)) [
      | inl gone ↦ absurd (cc)
      | inr (rest, found) ↦
          subst (Every P) (eq_of_some (rw (n, found) at e))
            (h.0, unregister_from-Every task ss rest h.1 found)
    ]
  ]

  changed-Every :
      (task : ℕ) (ws : Windows) (o : Option (List Window))
      → ((ss : List Window) → o ≡ some ss → Every P ss)
      → Every P ws.slots
      → Every P (changed ws o).slots
  changed-Every task ws none all h = h
  changed-Every task ws (some ss) all h = all ss refl

  unregister-Every :
      (task : ℕ) (ws : Windows) → Every P ws.slots → Every P (unregister task ws).slots
  unfolding unregister
  unregister-Every task ws h =
      changed-Every task ws _ (λ ss e. unregister_from-Every task ws.slots ss h e) h

  closed-Every :
      (task : ℕ) (o : Option (ℕ × Window)) (r : Router)
      → Every P r.windows.slots
      → Every P (closed task o r).windows.slots
  closed-Every task none r h = h
  closed-Every task (some (i, win)) r h = unregister-Every task r.windows h

  -- A router all of whose windows satisfy the predicate.
  abbrev Keeps : Router → Type 0
  Keeps r = Every P r.windows.slots

  send-Keeps :
      (win : Window) (kind : EventType) (x y : ℤ) (pressed : Bool) (r : Router)
      → Keeps r
      → Keeps (send win kind x y pressed r)
  send-Keeps win kind x y pressed r h = if_both Keeps (win.queue == 0) h h

  send_touch-Keeps :
      (o : Option (ℕ × Window)) (x y : ℤ) (pressed : Bool) (r : Router)
      → Keeps r
      → Keeps (send_touch o x y pressed r)
  send_touch-Keeps none x y pressed r h = h
  send_touch-Keeps (some (i, win)) x y pressed r h =
      send-Keeps win touch_event (x -ℤ win.x) (y -ℤ win.y) pressed r h

  poll_key-Keeps : (s : Sample) (r : Router) → Keeps r → Keeps (poll_key s r)
  unfolding poll_key
  poll_key-Keeps s r h =
      if_both Keeps (s.key_pressed && not (r.focus_task == 0))
        (sent (by_task r.focus_task r.windows)) h
    where
      sent : (o : Option (ℕ × Window)) → Keeps (send_key o s.key_code r)
      sent none = h
      sent (some (i, win)) = send-Keeps win key_event (pos s.key_code) (pos 0) true r h

  poll_strip-Keeps : (was pressed : Bool) (r : Router) → Keeps r → Keeps (poll_strip was pressed r)
  unfolding poll_strip
  poll_strip-Keeps was pressed r h =
      if_both Keeps pressed
        (send_touch-Keeps (by_task r.desktop_task r.windows) r.last_x r.last_y true r h)
        (if_both Keeps was
          (send_touch-Keeps (by_task r.desktop_task r.windows) r.last_x r.last_y false r h) h)

  drag_window-Keeps :
      (o : Option (ℕ × Window)) (s : Sample) (r : Router)
      → ((found : ℕ × Window) → o ≡ some found → P found.1)
      → Keeps r
      → Keeps (drag_window o s r)
  drag_window-Keeps none s r at h = h
  drag_window-Keeps (some (i, win)) s r at h =
      if_both Keeps s.pressed
        (Every-set r.windows.slots i _ h
          (drags (s.x -ℤ r.drag_offset_x) (s.y -ℤ r.drag_offset_y) win (at (i, win) refl)))
        h

  press_window-Keeps :
      (o : Option (ℕ × Window)) (s : Sample) (r : Router) → Keeps r → Keeps (press_window o s r)
  unfolding activate_window close_window
  press_window-Keeps none s r h = h
  press_window-Keeps (some (i, win)) s r h =
      if_both Keeps (ltb_ℤ (s.y -ℤ win.y) (pos title_bar_h))
        (if_both Keeps (win.closable && hits_close (s.x -ℤ win.x) (s.y -ℤ win.y) win)
          (closed-Every win.task (by_task win.task r.windows) r h)
          (bring_to_front-Every win.task r.windows h))
        (send-Keeps win touch_event (s.x -ℤ win.x) (s.y -ℤ win.y) true
          (record (activate_window win.task r) { touch_task = win.task })
          (bring_to_front-Every win.task r.windows h))

  poll_touch-Keeps : (was : Bool) (s : Sample) (r : Router) → Keeps r → Keeps (poll_touch was s r)
  unfolding poll_touch poll_drag poll_press poll_hold poll_release by_task
  poll_touch-Keeps was s r h = if_both Keeps (in_strip r) (poll_strip-Keeps was s.pressed r h) (
      if_both Keeps (is_drag r.drag_mode)
        (drag_window-Keeps (by_task r.drag_task r.windows) s r
          (λ found e. by_task_from-found r.drag_task 0 r.windows.slots found h e) h)
        (if_both Keeps s.pressed
          (if_both Keeps was (send_touch-Keeps (by_task r.touch_task r.windows) s.x s.y true r h)
            (press_window-Keeps (find_at s.x s.y r.windows) s r h))
          (if_both Keeps was
            (send_touch-Keeps (by_task r.touch_task r.windows) r.last_x r.last_y false r h) h)))

  poll_all-Keeps : (ss : List Sample) (r : Router) → Keeps r → Keeps (poll_all ss r)
  unfolding poll_all poll
  poll_all-Keeps [] r h = h
  poll_all-Keeps (s ∷ ss) r h =
      poll_all-Keeps ss (poll s r)
        (poll_touch-Keeps r.was_pressed s (track s (poll_key s r)) (poll_key-Keeps s r h))

-- One of the slots holds a window of the same task at the same height on the screen.
abbrev pub Stood : List Window → Window → Type 0
Stood [] s = ⊥
Stood (o ∷ os) s = ((o.task ≡ s.task) × (o.y ≡ s.y)) ⊎ Stood os s

-- The window keeps out of the strip.
abbrev pub BelowStrip : Window → Type 0
BelowStrip s = pos desktop_strip_h ≤ℤ s.y

dragged_to-BelowStrip : (x y : ℤ) (s : Window) → BelowStrip (dragged_to x y s)
dragged_to-BelowStrip x y s = elim (Bool-cases (ltb_ℤ y (pos desktop_strip_h))) [
  | inl e ↦ rw e (omega arith)
  | inr e ↦ rw e (ltb_ℤ→le y (pos desktop_strip_h) e)
]

Stood-self : (ss : List Window) → Every (Stood ss) ss
Stood-self [] = tt
Stood-self (s ∷ ss) = (inl (refl, refl), weaken ss (Stood-self ss))
  where
    weaken : (os : List Window) → Every (Stood ss) os → Every (Stood (s ∷ ss)) os
    weaken [] h = tt
    weaken (o ∷ os) h = (inr h.0, weaken os h.1)

placed : (os ss : List Window) → Every (Stood os) ss → Every (λ s. BelowStrip s ⊎ Stood os s) ss
placed os [] h = tt
placed os (s ∷ ss) h = (inr h.0, placed os ss h.1)

Stood-kept :
    (os : List Window) (s s' : Window) → s.task ≡ s'.task → s.y ≡ s'.y → Stood os s → Stood os s'
Stood-kept [] s s' t y h = h
Stood-kept (o ∷ os) s s' t y (inl h) = inl (h.0 ∙ t, h.1 ∙ y)
Stood-kept (o ∷ os) s s' t y (inr h) = inr (Stood-kept os s s' t y h)

-- After any sequence of samples of the keyboard and the touch screen, every slot of the table is below
-- the strip at the top of the screen or still stands at the height where a slot of the same task stood
-- at the start: the samples move no window into the strip.
pub poll_all-BelowStrip :
    (ss : List Sample) (r : Router)
    → Every (λ s. BelowStrip s ⊎ Stood r.windows.slots s) (poll_all ss r).windows.slots
poll_all-BelowStrip ss r =
    poll_all-Keeps (λ s. BelowStrip s ⊎ Stood os s)
      (λ s z. keeps s (record s { z_order = z }) refl refl)
      (λ s. keeps s (record s { in_use = false; canvas = 0 }) refl refl)
      (λ x y s h. inl (dragged_to-BelowStrip x y s)) ss r (placed os os (Stood-self os))
  where
    os : List Window
    os = r.windows.slots

    keeps :
        (s s' : Window)
        → s.task ≡ s'.task
        → s.y ≡ s'.y
        → BelowStrip s ⊎ Stood os s
        → BelowStrip s' ⊎ Stood os s'
    keeps s s' t y (inl h) = inl (subst (λ n. pos desktop_strip_h ≤ℤ n) y h)
    keeps s s' t y (inr h) = inr (Stood-kept os s s' t y h)
