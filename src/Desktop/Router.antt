-- ===== src/Desktop/Router.antt =====
-- v2/core/kernel/kernel_router.c, the input router. The samples of `hal_input` are arguments; what
-- `xQueueSendToBack` is handed is recorded, the last event first.
use rave_os.Prelude.{
  ℕ, ◌/◌, Bool, true, false, Option, none, some, List, [], ◌∷◌, ◌==◌, ◌&&◌, not, if◌then◌else◌, set,
  ℤ, pos, ◌+ℤ◌, ◌-ℤ◌, ◌*ℤ◌, ltb_ℤ, leb_ℤ,
}
use rave_os.Desktop.Windows.{Window, Windows, by_task, find_at, unregister, bring_to_front}

-- `enum drag_mode`
pub data DragMode : Type 0 where
  drag_none drag_move : DragMode

-- `enum kernel_event_type`
pub data EventType : Type 0 where
  touch_event close_event moved_event key_event : EventType

-- `struct kernel_event`
pub record Event : Type 0 where
  pub kind : EventType
  pub x : ℤ
  pub y : ℤ
  pub pressed : Bool

-- KERNEL_TITLE_BAR_H, KERNEL_CLOSE_BTN_R, KERNEL_CLOSE_BTN_MARGIN, KERNEL_DESKTOP_STRIP_H
abbrev pub title_bar_h : ℕ
title_bar_h = 16

abbrev pub close_btn_r : ℕ
close_btn_r = 5

abbrev pub close_btn_margin : ℕ
close_btn_margin = 8

abbrev pub desktop_strip_h : ℕ
desktop_strip_h = 24

-- The router's static variables, the window table and the events sent, each with its queue.
pub record Router : Type 0 where
  pub drag_mode : DragMode
  pub drag_task : ℕ
  pub drag_offset_x : ℤ
  pub drag_offset_y : ℤ
  pub was_pressed : Bool
  pub desktop_task : ℕ
  pub touch_task : ℕ
  pub last_x : ℤ
  pub last_y : ℤ
  pub focus_task : ℕ
  pub windows : Windows
  pub sent : List (ℕ × Event)

-- `send_event`; a window without a queue gets nothing.
abbrev pub send : Window → EventType → ℤ → ℤ → Bool → Router → Router
send win kind x y pressed r = if win.queue == 0 then r else record r {
  sent = (win.queue, record { kind = kind; x = x; y = y; pressed = pressed }) ∷ r.sent;
}

-- The same to a window that may be missing.
abbrev pub send_touch : Option (ℕ × Window) → ℤ → ℤ → Bool → Router → Router
send_touch none x y pressed r = r
send_touch (some (i, win)) x y pressed r = send win touch_event (x -ℤ win.x) (y -ℤ win.y) pressed r

abbrev pub set_desktop_task : ℕ → Router → Router
set_desktop_task task r = record r { desktop_task = task }

-- `kernel_router_activate_window`
unfoldable pub activate_window : ℕ → Router → Router
unfolding bring_to_front
activate_window task r = record r { windows = bring_to_front task r.windows; focus_task = task }

abbrev pub forget : ℕ → ℕ → ℕ
forget task held = if held == task then 0 else held

abbrev pub closed : ℕ → Option (ℕ × Window) → Router → Router
closed task none r = r
closed task (some (i, win)) r =
    let r' = send win close_event (pos 0) (pos 0) false r in
    record r' {
      windows = unregister task r.windows;
      focus_task = forget task r.focus_task;
      touch_task = forget task r.touch_task;
    }

-- `kernel_router_close_window`
unfoldable pub close_window : ℕ → Router → Router
unfolding by_task unregister
close_window task r = closed task (by_task task r.windows) r

-- `kernel_router_clear_focus`
unfoldable pub clear_focus : ℕ → Router → Router
clear_focus task r = record r { focus_task = forget task r.focus_task }

-- One sample of `hal_input_poll_key` and `hal_input_poll_touch`.
pub record Sample : Type 0 where
  pub key_code : ℕ
  pub key_pressed : Bool
  pub x : ℤ
  pub y : ℤ
  pub pressed : Bool

abbrev pub send_key : Option (ℕ × Window) → ℕ → Router → Router
send_key none key r = r
send_key (some (i, win)) key r = send win key_event (pos key) (pos 0) true r

unfoldable pub poll_key : Sample → Router → Router
unfolding by_task
poll_key s r =
    if s.key_pressed && not (r.focus_task == 0)
    then send_key (by_task r.focus_task r.windows) s.key_code r
    else r

-- The last touch point, and whether the finger was down.
abbrev pub track : Sample → Router → Router
track s r = record r {
  last_x = if s.pressed then s.x else r.last_x;
  last_y = if s.pressed then s.y else r.last_y;
  was_pressed = s.pressed;
}

abbrev pub is_drag : DragMode → Bool
is_drag drag_none = false
is_drag drag_move = true

-- The desktop's strip claims the sample.
abbrev pub in_strip : Router → Bool
in_strip r =
    not (r.desktop_task == 0)
    && not (is_drag r.drag_mode)
    && r.touch_task == 0
    && ltb_ℤ r.last_y (pos desktop_strip_h)

-- `was` is whether the finger was down before the sample.
unfoldable pub poll_strip : Bool → Bool → Router → Router
unfolding by_task
poll_strip was pressed r =
    if pressed
    then send_touch (by_task r.desktop_task r.windows) r.last_x r.last_y true r
    else if was
    then send_touch (by_task r.desktop_task r.windows) r.last_x r.last_y false r
    else r

-- The window under a drag goes with the finger, but not into the strip.
abbrev pub dragged_to : ℤ → ℤ → Window → Window
dragged_to x y win = record win {
  x = x;
  y = if ltb_ℤ y (pos desktop_strip_h) then pos desktop_strip_h else y;
}

abbrev pub dropped : Router → Router
dropped r = record r { drag_mode = drag_none; drag_task = 0 }

abbrev pub drag_window : Option (ℕ × Window) → Sample → Router → Router
drag_window none s r = dropped r
drag_window (some (i, win)) s r =
    if s.pressed
    then record r {
      windows = record r.windows {
        slots =
            set r.windows.slots i
              (dragged_to (s.x -ℤ r.drag_offset_x) (s.y -ℤ r.drag_offset_y) win);
        dirty = true;
      };
    }
    else dropped r

unfoldable pub poll_drag : Sample → Router → Router
unfolding by_task
poll_drag s r = drag_window (by_task r.drag_task r.windows) s r

-- The close button is hit, with 3 pixels of forgiveness.
abbrev pub hits_close : ℤ → ℤ → Window → Bool
hits_close rel_x rel_y win =
    let dx = rel_x -ℤ (win.w -ℤ pos close_btn_margin) in
    let dy = rel_y -ℤ pos (title_bar_h / 2) in leb_ℤ (dx *ℤ dx +ℤ dy *ℤ dy) (pos 64)

abbrev pub start_drag : ℤ → ℤ → Window → Router → Router
start_drag rel_x rel_y win r = record (activate_window win.task r) {
  drag_mode = drag_move;
  drag_task = win.task;
  drag_offset_x = rel_x;
  drag_offset_y = rel_y;
}

abbrev pub start_touch : ℤ → ℤ → Window → Router → Router
start_touch rel_x rel_y win r =
    send win touch_event rel_x rel_y true
      (record (activate_window win.task r) { touch_task = win.task })

abbrev pub press_window : Option (ℕ × Window) → Sample → Router → Router
press_window none s r = r
press_window (some (i, win)) s r =
    let rel_x = s.x -ℤ win.x in
    let rel_y = s.y -ℤ win.y in
    if ltb_ℤ rel_y (pos title_bar_h)
    then if win.closable && hits_close rel_x rel_y win
      then close_window win.task r
      else start_drag rel_x rel_y win r
    else start_touch rel_x rel_y win r

unfoldable pub poll_press : Sample → Router → Router
unfolding find_at activate_window close_window
poll_press s r = press_window (find_at s.x s.y r.windows) s r

-- A gesture that goes on, and its end.
unfoldable pub poll_hold : Sample → Router → Router
unfolding by_task
poll_hold s r = send_touch (by_task r.touch_task r.windows) s.x s.y true r

unfoldable pub poll_release : Router → Router
unfolding by_task
poll_release r = record (send_touch (by_task r.touch_task r.windows) r.last_x r.last_y false r) {
  touch_task = 0;
}

-- The rest of `kernel_router_poll`, with the touch point tracked.
unfoldable pub poll_touch : Bool → Sample → Router → Router
unfolding poll_strip poll_drag poll_press poll_hold poll_release
poll_touch was s r =
    if in_strip r
    then poll_strip was s.pressed r
    else if is_drag r.drag_mode
    then poll_drag s r
    else if s.pressed
    then if was then poll_hold s r else poll_press s r
    else if was
    then poll_release r
    else r

-- `kernel_router_poll`
unfoldable pub poll : Sample → Router → Router
unfolding poll_key poll_touch
poll s r = poll_touch r.was_pressed s (track s (poll_key s r))

unfoldable pub poll_all : List Sample → Router → Router
poll_all [] r = r
poll_all (s ∷ ss) r = poll_all ss (poll s r)
