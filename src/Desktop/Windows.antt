-- ===== src/Desktop/Windows.antt =====
-- v2/core/kernel/kernel_window.c, the window table. A handle (task, queue, canvas) is a number, NULL
-- being 0; a pointer into the table is an index. `dirty` is the flag that `gfx_mark_dirty` sets.
use rave_os.Prelude.{
  ℕ, zero, suc, ◌+◌, Bool, true, false, Option, none, some, List, [], ◌∷◌, ◌==◌, ◌&&◌, not,
  if◌then◌else◌, set, ℤ, pos, negsuc, ◌+ℤ◌, ◌-ℤ◌, ltb_ℤ, leb_ℤ,
}

-- KERNEL_WINDOW_MAX
abbrev pub window_max : ℕ
window_max = 8

-- `struct kernel_window`
pub record Window : Type 0 where
  pub task : ℕ
  pub queue : ℕ
  pub redraw_done_sem : ℕ
  pub canvas : ℕ
  pub app_name : List ℕ
  pub x : ℤ
  pub y : ℤ
  pub w : ℤ
  pub h : ℤ
  pub z_order : ℤ
  pub closable : Bool
  pub in_use : Bool

-- `g_windows`, `g_next_z` and the dirty flag.
pub record Windows : Type 0 where
  pub slots : List Window
  pub next_z : ℤ
  pub dirty : Bool

-- The first slot that is not in use gets `win`.
unfoldable pub register_from : Window → List Window → Option (List Window)
register_from win [] = none
register_from win (s ∷ ss) =
    let rest = register_from win ss in
    if s.in_use then elim rest [ none ↦ none | some ss' ↦ some (s ∷ ss') ] else some (win ∷ ss)

abbrev pub registered : Windows → Option (List Window) → Bool × Windows
registered ws none = (false, ws)
registered ws (some slots) =
    (true, record { slots = slots; next_z = ws.next_z +ℤ pos 1; dirty = true })

-- `kernel_window_register`; the arguments are those fields of `win` that it sets.
unfoldable pub register : Window → Windows → Bool × Windows
unfolding register_from
register win ws =
    registered ws (register_from (record win { z_order = ws.next_z; in_use = true }) ws.slots)

-- Whether the slot holds the window of `task`.
abbrev pub is_of : ℕ → Window → Bool
is_of task s = s.in_use && s.task == task

-- `kernel_window_unregister`
unfoldable pub unregister_from : ℕ → List Window → Option (List Window)
unregister_from task [] = none
unregister_from task (s ∷ ss) =
    let rest = unregister_from task ss in
    if is_of task s
    then some (record s { in_use = false; canvas = 0 } ∷ ss)
    else elim rest [ none ↦ none | some ss' ↦ some (s ∷ ss') ]

abbrev pub changed : Windows → Option (List Window) → Windows
changed ws none = ws
changed ws (some slots) = record ws { slots = slots; dirty = true }

unfoldable pub unregister : ℕ → Windows → Windows
unfolding unregister_from
unregister task ws = changed ws (unregister_from task ws.slots)

-- `kernel_window_by_task`: the index and the window, from index `i`.
unfoldable pub by_task_from : ℕ → ℕ → List Window → Option (ℕ × Window)
by_task_from task i [] = none
by_task_from task i (s ∷ ss) =
    let rest = by_task_from task (i + 1) ss in if is_of task s then some (i, s) else rest

unfoldable pub by_task : ℕ → Windows → Option (ℕ × Window)
unfolding by_task_from
by_task task ws = by_task_from task 0 ws.slots

-- The loops that look for the best window in use that passes a test.
abbrev pub improves : (Window → Window → Bool) → Window → Option (ℕ × Window) → Bool
improves better s none = true
improves better s (some b) = better s b.1

unfoldable pub best_from :
    (Window → Bool)
    → (Window → Window → Bool)
    → Option (ℕ × Window)
    → ℕ
    → List Window
    → Option (ℕ × Window)
best_from ok better best i [] = best
best_from ok better best i (s ∷ ss) =
    best_from ok better (if s.in_use && ok s && improves better s best then some (i, s) else best)
      (i + 1) ss

abbrev pub above : Window → Window → Bool
above s best = ltb_ℤ best.z_order s.z_order

abbrev pub below : Window → Window → Bool
below s best = ltb_ℤ s.z_order best.z_order

abbrev pub covers : ℤ → ℤ → Window → Bool
covers x y s = leb_ℤ s.x x && ltb_ℤ x (s.x +ℤ s.w) && leb_ℤ s.y y && ltb_ℤ y (s.y +ℤ s.h)

-- `kernel_window_find_at`
unfoldable pub find_at : ℤ → ℤ → Windows → Option (ℕ × Window)
unfolding best_from
find_at x y ws = best_from (covers x y) above none 0 ws.slots

-- `kernel_window_next_by_z`
unfoldable pub next_by_z : ℤ → Windows → Option (ℕ × Window)
unfolding best_from
next_by_z after_z ws = best_from (λ s. ltb_ℤ after_z s.z_order) below none 0 ws.slots

-- `kernel_window_topmost`
unfoldable pub topmost : Windows → Option (ℕ × Window)
unfolding best_from
topmost ws = best_from (λ s. true) above none 0 ws.slots

-- `kernel_window_count`
unfoldable pub count_from : List Window → ℕ
count_from [] = 0
count_from (s ∷ ss) = (if s.in_use then 1 else 0) + count_from ss

unfoldable pub count : Windows → ℕ
unfolding count_from
count ws = count_from ws.slots

-- `kernel_window_bring_to_front`
abbrev pub fronted : Windows → Option (ℕ × Window) → Windows
fronted ws none = ws
fronted ws (some (i, s)) = record {
  slots = set ws.slots i (record s { z_order = ws.next_z });
  next_z = ws.next_z +ℤ pos 1;
  dirty = true;
}

unfoldable pub bring_to_front : ℕ → Windows → Windows
unfolding by_task
bring_to_front task ws = fronted ws (by_task task ws)

-- The loop of `kernel_window_send_to_back` over the windows other than slot `own`.
unfoldable pub lowest_from : ℕ → ℤ → ℕ → List Window → ℤ
lowest_from own min_z i [] = min_z
lowest_from own min_z i (s ∷ ss) =
    lowest_from own
      (if s.in_use && not (i == own) && ltb_ℤ s.z_order min_z then s.z_order else min_z) (i + 1) ss

abbrev pub backed : Windows → Option (ℕ × Window) → Windows
backed ws none = ws
backed ws (some (i, s)) = record ws {
  slots = set ws.slots i (record s { z_order = lowest_from i s.z_order 0 ws.slots -ℤ pos 1 });
  dirty = true;
}

unfoldable pub send_to_back : ℕ → Windows → Windows
unfolding by_task lowest_from
send_to_back task ws = backed ws (by_task task ws)

-- The walk of `kernel_router_composite_frame`: the windows that it blits, in order. Each round uses
-- one unit of fuel.
unfoldable pub walk_up : ℕ → ℤ → Windows → Option (List Window)
unfolding next_by_z
walk_up zero z ws = none
walk_up (suc fuel) z ws = elim (next_by_z z ws) [
  | none ↦ some []
  | some (i, s) ↦ elim (walk_up fuel s.z_order ws) [ none ↦ none | some rest ↦ some (s ∷ rest) ]
]

-- It starts with `int z = -1`.
unfoldable pub composited : ℕ → Windows → Option (List Window)
unfolding walk_up
composited fuel ws = walk_up fuel (negsuc 0) ws
