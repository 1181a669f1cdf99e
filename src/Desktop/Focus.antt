-- ===== src/Desktop/Focus.antt =====
-- v2/core/kernel/kernel_router.c: the tasks that hold the focus and the gesture.
use rave_os.Prelude.{
  ℕ, Bool, true, false, Option, none, some, List, [], ◌∷◌, ◌==◌, ◌&&◌, not, get_elem?, set, ◌≡◌,
  ◌≢◌, inl, inr, refl, if_both, arith, ℤ, pos, ◌-ℤ◌, ltb_ℤ,
}
use rave_os.Desktop.Windows.{Window, by_task, above, covers, find_at}
use rave_os.Desktop.Router.{
  key_event, EventType, touch_event, close_event, title_bar_h, Router, send, send_touch,
  activate_window, forget, closed, close_window, Sample, send_key, poll_key, track, is_drag,
  in_strip, poll_strip, dragged_to, drag_window, poll_drag, hits_close, press_window, poll_press,
  poll_hold, poll_release, poll_touch, poll, poll_all,
}
use native.Mathlib.Decide.{ℕ_discrete}
use rave_os.Desktop.Composite.{best_from-Fits}
use rave_os.Desktop.Registered.{
  IsRegistered, IsHeld, neq→==, get_elem?-by_task, IsRegistered-set, IsHeld-forget,
  IsHeld-bring_to_front, IsRegistered-IsIn,
}

abbrev pub IsLive : Router → Type 0
IsLive r = IsHeld r.focus_task r.windows × IsHeld r.touch_task r.windows

closed-IsLive : (t : ℕ) (o : Option (ℕ × Window)) (r : Router) → IsLive r → IsLive (closed t o r)
closed-IsLive t none r h = h
closed-IsLive t (some (i, win)) r h =
    (IsHeld-forget r.focus_task t r.windows h.0, IsHeld-forget r.touch_task t r.windows h.1)

send-IsLive :
    (win : Window) (kind : EventType) (x y : ℤ) (pressed : Bool) (r : Router)
    → IsLive r
    → IsLive (send win kind x y pressed r)
send-IsLive win kind x y pressed r h = if_both IsLive (win.queue == 0) h h

send_touch-IsLive :
    (o : Option (ℕ × Window)) (x y : ℤ) (pressed : Bool) (r : Router)
    → IsLive r
    → IsLive (send_touch o x y pressed r)
send_touch-IsLive none x y pressed r h = h
send_touch-IsLive (some (i, win)) x y pressed r h =
    send-IsLive win touch_event (x -ℤ win.x) (y -ℤ win.y) pressed r h

poll_key-IsLive : (s : Sample) (r : Router) → IsLive r → IsLive (poll_key s r)
unfolding poll_key
poll_key-IsLive s r h =
    if_both IsLive (s.key_pressed && not (r.focus_task == 0))
      (sent (by_task r.focus_task r.windows)) h
  where
    sent : (o : Option (ℕ × Window)) → IsLive (send_key o s.key_code r)
    sent none = h
    sent (some (i, win)) = send-IsLive win key_event (pos s.key_code) (pos 0) true r h

poll_strip-IsLive : (was pressed : Bool) (r : Router) → IsLive r → IsLive (poll_strip was pressed r)
unfolding poll_strip
poll_strip-IsLive was pressed r h =
    let told =
      λ (b : Bool). send_touch-IsLive (by_task r.desktop_task r.windows) r.last_x r.last_y b r h in
    if_both IsLive pressed (told true) (if_both IsLive was (told false) h)

drag_window-IsLive :
    (o : Option (ℕ × Window)) (s : Sample) (r : Router)
    → ((f : ℕ × Window) → o ≡ some f → get_elem? r.windows.slots f.0 ≡ some f.1)
    → IsLive r
    → IsLive (drag_window o s r)
drag_window-IsLive none s r at h = h
drag_window-IsLive (some (i, win)) s r at h =
    if_both IsLive s.pressed (moved r.focus_task h.0, moved r.touch_task h.1) h
  where
    moved :
        (t : ℕ)
        → IsHeld t r.windows
        → IsHeld t (record r.windows {
          slots =
              set r.windows.slots i
                (dragged_to (s.x -ℤ r.drag_offset_x) (s.y -ℤ r.drag_offset_y) win);
          dirty = true;
        })
    moved t (inl nobody) = inl nobody
    moved t (inr m) = inr (IsRegistered-set t r.windows.slots i win _ (at (i, win) refl) refl m)

press_window-IsLive :
    (o : Option (ℕ × Window)) (s : Sample) (r : Router)
    → ((f : ℕ × Window) → o ≡ some f → IsRegistered f.1.task r.windows.slots)
    → IsLive r
    → IsLive (press_window o s r)
unfolding activate_window close_window
press_window-IsLive none s r at h = h
press_window-IsLive (some (i, win)) s r at h =
    let here = IsHeld-bring_to_front win.task win.task r.windows (inr (at (i, win) refl)) in
    let gesture = IsHeld-bring_to_front r.touch_task win.task r.windows h.1 in
    if_both IsLive (ltb_ℤ (s.y -ℤ win.y) (pos title_bar_h))
      (if_both IsLive (win.closable && hits_close (s.x -ℤ win.x) (s.y -ℤ win.y) win)
        (closed-IsLive win.task (by_task win.task r.windows) r h) (here, gesture))
      (send-IsLive win touch_event (s.x -ℤ win.x) (s.y -ℤ win.y) true
        (record (activate_window win.task r) { touch_task = win.task }) (here, here))

poll_touch-IsLive : (was : Bool) (s : Sample) (r : Router) → IsLive r → IsLive (poll_touch was s r)
unfolding poll_touch poll_drag poll_press poll_hold poll_release find_at
poll_touch-IsLive was s r h = if_both IsLive (in_strip r) (poll_strip-IsLive was s.pressed r h) (
    if_both IsLive (is_drag r.drag_mode)
      (drag_window-IsLive (by_task r.drag_task r.windows) s r
        (λ f e. get_elem?-by_task r.drag_task r.windows f e) h)
      (if_both IsLive s.pressed
        (if_both IsLive was (send_touch-IsLive (by_task r.touch_task r.windows) s.x s.y true r h) (
          press_window-IsLive (find_at s.x s.y r.windows) s r
            (λ f e.
              let fits = best_from-Fits (covers s.x s.y) above r.windows f e in
              IsRegistered-IsIn r.windows.slots f.1 fits.1 fits.0)
            h))
        (if_both IsLive was
          (
            (send_touch-IsLive (by_task r.touch_task r.windows) r.last_x r.last_y false r h).0,
            inl refl,
          )
          h)))

-- If the focus and the gesture are each held by nobody or by the task of a window in use, then so it
-- is after any sequence of samples of the keyboard and the touch screen.
pub poll_all-IsLive : (ss : List Sample) (r : Router) → IsLive r → IsLive (poll_all ss r)
unfolding poll_all poll
poll_all-IsLive [] r h = h
poll_all-IsLive (s ∷ ss) r h =
    poll_all-IsLive ss (poll s r)
      (poll_touch-IsLive r.was_pressed s (track s (poll_key s r)) (poll_key-IsLive s r h))

forget_ne : (t held : ℕ) → t ≢ 0 → forget t held ≢ t
forget_ne t held ne = elim (ℕ_discrete held t) [
  | yes same ↦ rw same (λ e. ne (ground arith))
  | no other ↦ rw (neq→== held t other) other
]

-- If the focus and the gesture are each held by nobody or by a task with a window in use, and the task
-- has a window, then closing it tells the window's queue, leaves the focus and the gesture held so,
-- and neither by that task.
pub close_window-IsLive :
    (t : ℕ) (f : ℕ × Window) (r : Router)
    → t ≢ 0
    → (f.1.queue == 0) ≡ false
    → by_task t r.windows ≡ some f
    → IsLive r
    → (let r' = close_window t r in
        (r'.sent
          ≡ (f.1.queue, record { kind = close_event; x = pos 0; y = pos 0; pressed = false })
            ∷ r.sent)
        × IsLive r'
        × (r'.focus_task ≢ t)
        × (r'.touch_task ≢ t))
unfolding close_window
close_window-IsLive t f r ne queued e h =
    rw (e, queued)
      (refl, closed-IsLive t (some f) r h, forget_ne t r.focus_task ne, forget_ne t r.touch_task ne)
