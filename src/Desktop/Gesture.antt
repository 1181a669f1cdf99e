-- ===== src/Desktop/Gesture.antt =====
-- v2/core/kernel/kernel_router.c: a touch gesture, from the press on a window to its release.
use rave_os.Prelude.{
  ℕ, Bool, true, false, some, List, [], ◌∷◌, ◌==◌, ◌&&◌, Every, ◌≡◌, refl, ap, ℤ, ◌-ℤ◌,
}
use rave_os.Desktop.Windows.{Window, by_task}
use rave_os.Desktop.Router.{
  drag_none, touch_event, Event, Router, Sample, poll_key, poll_hold, poll_release, poll_touch,
  poll, poll_all,
}

-- The finger is down on the content of the window of a task, slot `i` of the table.
pub record Gesturing (i : ℕ) (win : Window) (r : Router) : Type 0 where
  pub no_drag : r.drag_mode ≡ drag_none
  pub down : r.was_pressed ≡ true
  pub captured : (r.touch_task == 0) ≡ false
  pub target : by_task r.touch_task r.windows ≡ some (i, win)

-- What the window is told.
abbrev pub touch_on : Window → ℤ → ℤ → Bool → ℕ × Event
touch_on win x y pressed =
    (win.queue, record { kind = touch_event; x = x -ℤ win.x; y = y -ℤ win.y; pressed = pressed })

-- The finger stays down and no key is pressed.
abbrev pub IsHeld : Sample → Type 0
IsHeld s = (s.pressed ≡ true) × (s.key_pressed ≡ false)

-- What a gesture leaves in the queues, the last event first, and where it ends.
unfoldable pub touches : Window → List Sample → List (ℕ × Event) → List (ℕ × Event)
touches win [] told = told
touches win (s ∷ ss) told = touches win ss (touch_on win s.x s.y true ∷ told)

unfoldable pub last_point : List Sample → ℤ × ℤ → ℤ × ℤ
last_point [] at = at
last_point (s ∷ ss) at = last_point ss (s.x, s.y)

third_false : (b c d : Bool) → (b && c && false && d) ≡ false
third_false true true d = refl
third_false true false d = refl
third_false false c d = refl

module _ (i : ℕ) (win : Window) (queued : (win.queue == 0) ≡ false) where
  -- One sample, as the record that it leaves.
  held_step :
      (s : Sample) (r : Router)
      → Gesturing i win r
      → IsHeld s
      → poll s r
        ≡ record r { last_x = s.x; last_y = s.y; sent = touch_on win s.x s.y true ∷ r.sent }
  unfolding poll poll_touch poll_key poll_hold
  held_step s r g h = simp (h.1, h.0, g.no_drag, g.captured, g.down, g.target, queued, third_false)

  -- The release.
  released_step :
      (s : Sample) (r : Router)
      → Gesturing i win r
      → s.pressed ≡ false
      → s.key_pressed ≡ false
      → poll s r ≡ record r {
        was_pressed = false;
        touch_task = 0;
        sent = touch_on win r.last_x r.last_y false ∷ r.sent;
      }
  unfolding poll poll_touch poll_key poll_release
  released_step s r g up quiet =
      simp (quiet, up, g.no_drag, g.captured, g.down, g.target, queued, third_false)

  -- If the finger is down on the content of a window that has a queue, and stays down for some samples
  -- and then leaves, with no key pressed, then what is sent is one touch event for each sample, in the
  -- window's coordinates, and one for the release at the last point, all of them to that window's
  -- queue; the gesture is over and no window has changed.
  pub poll-poll_all_gesture :
      (ss : List Sample) (s : Sample) (r : Router)
      → Gesturing i win r
      → Every IsHeld ss
      → s.pressed ≡ false
      → s.key_pressed ≡ false
      → (let p = last_point ss (r.last_x, r.last_y) in
          let end = poll s (poll_all ss r) in
          (end.sent ≡ touch_on win p.0 p.1 false ∷ touches win ss r.sent)
          × (end.windows ≡ r.windows)
          × (end.touch_task ≡ 0)
          × (end.focus_task ≡ r.focus_task))
  unfolding poll_all touches last_point
  poll-poll_all_gesture [] s r g h up quiet =
      let e = released_step s r g up quiet in
      (
        ap (λ q. q.sent) e,
        ap (λ q. q.windows) e,
        ap (λ q. q.touch_task) e,
        ap (λ q. q.focus_task) e,
      )
  poll-poll_all_gesture (t ∷ ss) s r g h up quiet = rw (held_step t r g h.0) (
      poll-poll_all_gesture ss s
        (record r { last_x = t.x; last_y = t.y; sent = touch_on win t.x t.y true ∷ r.sent })
        (record { no_drag = g.no_drag; down = g.down; captured = g.captured; target = g.target })
        h.1 up quiet)
