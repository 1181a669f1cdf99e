-- ===== src/Desktop/Tests.antt =====
-- Runs of the window table, the router and the overlay.
use rave_os.Prelude.{
  ◌⊎◌, ℕ, ◌+◌, Bool, true, false, some, List, [], ◌∷◌, get_elem?, length, Every, ◌≡◌, ◌≢◌, inl, inr,
  refl, arith, ℤ, pos, negsuc, ◌-ℤ◌,
}
use rave_os.Desktop.Windows.{
  Window, Windows, is_of, by_task_from, by_task, best_from, find_at, next_by_z, lowest_from,
  send_to_back, walk_up, composited, register, register_from, count, count_from,
}
use rave_os.Desktop.Router.{drag_none, close_event, Router, close_window, Sample, poll, poll_all}
use rave_os.Prelude.{codes}
use rave_os.Desktop.Overlay.{Overlay}
use rave_os.Desktop.Slots.{register-count}
use rave_os.Desktop.Composite.{Ascends, ShowsAbove, IsShown, IsHit, find_at-IsHit, composited-total}
use rave_os.Desktop.Below.{BelowStrip, Stood, poll_all-BelowStrip}
use rave_os.Desktop.Focus.{IsLive, poll_all-IsLive, close_window-IsLive}
use rave_os.Desktop.Gesture.{touches, touch_on, last_point, poll-poll_all_gesture}
use rave_os.Desktop.Back.{send_to_back-hidden}
use rave_os.Desktop.Owner.{asks, gives_up, dies, call_all, call_all-owned}

abbrev window : ℕ → ℤ → ℤ → ℤ → Window
window task x y z = record {
  task = task;
  queue = task + 100;
  redraw_done_sem = 0;
  canvas = task;
  app_name = codes "app";
  x = x;
  y = y;
  w = pos 100;
  h = pos 80;
  z_order = z;
  closable = true;
  in_use = true;
}

-- A table of two slots of which the first is free.
abbrev one_free : Windows
one_free = record {
  slots =
      record (window 1 (pos 10) (pos 30) (pos 0)) { in_use = false }
      ∷ window 2 (pos 50) (pos 60) (pos 1)
      ∷ [];
  next_z = pos 2;
  dirty = false;
}

abbrev two_windows : Windows
two_windows = record {
  slots = window 1 (pos 10) (pos 30) (pos 0) ∷ window 2 (pos 50) (pos 60) (pos 1) ∷ [];
  next_z = pos 2;
  dirty = false;
}

-- The finger is on the content of the second window.
abbrev touching : Router
touching = record {
  drag_mode = drag_none;
  drag_task = 0;
  drag_offset_x = pos 0;
  drag_offset_y = pos 0;
  was_pressed = true;
  desktop_task = 0;
  touch_task = 2;
  last_x = pos 60;
  last_y = pos 90;
  focus_task = 2;
  windows = two_windows;
  sent = [];
}

abbrev idle : Router
idle = record touching { was_pressed = false; touch_task = 0 }

abbrev sample : ℤ → ℤ → Bool → Sample
sample x y pressed = record { key_code = 0; key_pressed = false; x = x; y = y; pressed = pressed }

abbrev drag_up : List Sample
drag_up =
    sample (pos 60) (pos 35) true
    ∷ sample (pos 60) (pos 3) true
    ∷ sample (pos 60) (pos 3) false
    ∷ []

poll_all-BelowStrip_example :
    Every (λ s. BelowStrip s ⊎ Stood idle.windows.slots s) (poll_all drag_up idle).windows.slots
poll_all-BelowStrip_example = poll_all-BelowStrip drag_up idle

poll_all-IsLive_example : IsLive (poll_all drag_up idle)
poll_all-IsLive_example = poll_all-IsLive drag_up idle (inr (inr (inl refl)), inl refl)

close_window-IsLive_example :
    (let r' = close_window 2 touching in
      (r'.sent ≡ (102, record { kind = close_event; x = pos 0; y = pos 0; pressed = false }) ∷ [])
      × IsLive r'
      × (r'.focus_task ≢ 2)
      × (r'.touch_task ≢ 2))
unfolding by_task by_task_from
close_window-IsLive_example =
    close_window-IsLive 2 (1, window 2 (pos 50) (pos 60) (pos 1)) touching
      (λ e. absurd (omega arith)) refl refl (inr (inr (inl refl)), inr (inr (inl refl)))

poll-poll_all_gesture_example :
    (let p =
        last_point
          (sample (pos 61) (pos 91) true ∷ sample (pos 5) (pos 5) true ∷ [])
          (pos 60, pos 90) in
      let end =
        poll
          (sample (pos 0) (pos 0) false)
          (poll_all (sample (pos 61) (pos 91) true ∷ sample (pos 5) (pos 5) true ∷ []) touching) in
      let win = window 2 (pos 50) (pos 60) (pos 1) in
      (end.sent
        ≡ touch_on win p.0 p.1 false
          ∷ touches win (sample (pos 61) (pos 91) true ∷ sample (pos 5) (pos 5) true ∷ []) [])
      × (end.windows ≡ two_windows)
      × (end.touch_task ≡ 0)
      × (end.focus_task ≡ 2))
unfolding by_task by_task_from
poll-poll_all_gesture_example =
    poll-poll_all_gesture 1 (window 2 (pos 50) (pos 60) (pos 1)) refl
      (sample (pos 61) (pos 91) true ∷ sample (pos 5) (pos 5) true ∷ [])
      (sample (pos 0) (pos 0) false) touching
      (record { no_drag = refl; down = refl; captured = refl; target = refl })
      ((refl, refl), ((refl, refl), tt)) refl refl

find_at-IsHit_example : IsHit (pos 60) (pos 70) two_windows (find_at (pos 60) (pos 70) two_windows)
find_at-IsHit_example = find_at-IsHit (pos 60) (pos 70) two_windows

composited-total_example :
    (l : List Window) × (composited 9 two_windows ≡ some l)
    × Ascends two_windows (negsuc 0) l
    × ShowsAbove two_windows (negsuc 0) l
composited-total_example = composited-total two_windows (omega arith)

send_to_back-hidden_example :
    (w : Window) × (get_elem? (send_to_back 1 two_windows).slots 0 ≡ some w)
    × (is_of 1 w ≡ true)
    × ¬ IsShown w.z_order (window 2 (pos 50) (pos 60) (pos 1) ∷ [])
unfolding composited send_to_back walk_up next_by_z best_from by_task by_task_from lowest_from ◌-ℤ◌
send_to_back-hidden_example =
    send_to_back-hidden 1 (0, window 1 (pos 10) (pos 30) (pos 0)) two_windows 9
      (window 2 (pos 50) (pos 60) (pos 1) ∷ []) refl (omega arith) refl

abbrev held_overlay : Overlay
held_overlay = record { canvas = some 7; is_open = true; owner = some 1; cleared = 1; dirty = true }

call_all-owned_example :
    call_all held_overlay (asks 2 (some 9) ∷ gives_up 2 ∷ dies 3 ∷ []) ≡ held_overlay
call_all-owned_example =
    call_all-owned 1 (asks 2 (some 9) ∷ gives_up 2 ∷ dies 3 ∷ []) held_overlay refl refl (
      (λ e. absurd (omega arith)),
      ((λ e. absurd (omega arith)), ((λ e. absurd (omega arith)), tt)),
    )

register-count_example :
    (let r = register (window 3 (pos 0) (pos 20) (pos 0)) one_free in
      (r.0 ≡ true) × (count r.1 ≡ 2) × (length r.1.slots ≡ 2))
unfolding register register_from count count_from
register-count_example = register-count (window 3 (pos 0) (pos 20) (pos 0)) one_free
