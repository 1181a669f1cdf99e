-- ===== src/Desktop/Overlay.antt =====
-- v2/core/kernel/kernel_overlay.c, the full-screen overlay. What the display layer answers to
-- `gfx_create_canvas` is an argument: a canvas, or `none` for NULL.
use rave_os.Prelude.{
  ◌+◌, ℕ, Bool, true, false, Option, none, some, ◌==◌, ◌&&◌, ◌||◌, not, if◌then◌else◌,
}

-- `g_canvas`, `g_open`, `g_owner` (NULL is `none`), and the canvases that were filled with the key
-- colour, counted.
pub record Overlay : Type 0 where
  pub canvas : Option ℕ
  pub is_open : Bool
  pub owner : Option ℕ
  pub cleared : ℕ
  pub dirty : Bool

-- The task holds the overlay.
abbrev pub owned_by : ℕ → Option ℕ → Bool
owned_by task none = false
owned_by task (some t) = t == task

abbrev pub allocated : Option ℕ → Option ℕ → Option ℕ
allocated none created = created
allocated (some c) created = some c

abbrev pub opened : ℕ → Option ℕ → Overlay → Bool × Overlay
opened task none ov = (false, ov)
opened task (some c) ov = (
  true,
  record ov {
    canvas = some c;
    is_open = true;
    owner = some task;
    cleared = ov.cleared + 1;
    dirty = true;
  },
)

-- `kernel_overlay_open`
unfoldable pub open_overlay : ℕ → Option ℕ → Overlay → Bool × Overlay
open_overlay task created ov =
    if ov.is_open && not (owned_by task ov.owner)
    then (false, ov)
    else opened task (allocated ov.canvas created) ov

-- `kernel_overlay_close`
unfoldable pub close : ℕ → Overlay → Overlay
close task ov =
    if not ov.is_open || not (owned_by task ov.owner)
    then ov
    else record ov { is_open = false; owner = none; dirty = true }

-- `kernel_overlay_release_owner`
unfoldable pub release_owner : ℕ → Overlay → Overlay
release_owner task ov =
    if not ov.is_open || not (owned_by task ov.owner)
    then ov
    else record ov { is_open = false; owner = none; dirty = true }

-- `kernel_overlay_canvas` and `kernel_overlay_canvas_for`
unfoldable pub canvas_of : Overlay → Option ℕ
canvas_of ov = if ov.is_open then ov.canvas else none

unfoldable pub canvas_for : ℕ → Overlay → Option ℕ
canvas_for task ov = if not ov.is_open || not (owned_by task ov.owner) then none else ov.canvas
