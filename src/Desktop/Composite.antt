-- ===== src/Desktop/Composite.antt =====
-- v2/core/kernel/kernel_router.c and kernel_window.c: which windows a frame is composed of, and which
-- one a touch hits.
use rave_os.Prelude.{
  ltb_ℤ→lt, eq_of_parts, ℕ, zero, suc, ◌+◌, ◌≤◌, ◌<◌, Bool, true, false, Option, none, some, List,
  [], ◌∷◌, ◌&&◌, if◌then◌else◌, ltb, length, Every, ◌≡◌, ◌⊎◌, inl, inr, refl, sym, subst, ◌∙◌,
  eq_of_some, Bool-cases, Option-cases, arith, ℤ, negsuc, ◌≤ℤ◌, ◌<ℤ◌, ltb_ℤ,
}
use mathlib.Core.Bool.{false≢true}
use rave_os.Desktop.Windows.{
  window_max, Window, Windows, best_from, above, below, covers, find_at, next_by_z, walk_up,
  composited,
}
use rave_os.Desktop.Search.{
  IsIn, best_from-found, Every-IsIn, all_in, best_from-Beats, best_from-none,
}

-- The windows in use above `z`.
unfoldable higher : ℤ → List Window → ℕ
higher z [] = 0
higher z (s ∷ ss) = (if s.in_use && ltb_ℤ z s.z_order then 1 else 0) + higher z ss

higher_mono : (z z' : ℤ) (ss : List Window) → z ≤ℤ z' → higher z' ss ≤ higher z ss
unfolding higher
higher_mono z z' [] h = omega arith
higher_mono z z' (s ∷ ss) h = let ih = higher_mono z z' ss h in ground arith

higher_self :
    (z : ℤ) (w : Window) (ss : List Window)
    → w.in_use ≡ true
    → z <ℤ w.z_order
    → higher w.z_order (w ∷ ss) < higher z (w ∷ ss)
unfolding higher
higher_self z w ss u h = let ih = higher_mono z w.z_order ss (omega arith) in ground arith

higher_lt :
    (z : ℤ) (ss : List Window) (w : Window)
    → IsIn w ss
    → w.in_use ≡ true
    → z <ℤ w.z_order
    → higher w.z_order ss < higher z ss
unfolding higher
higher_lt z [] w m u h = absurd m
higher_lt z (s ∷ ss) w (inl e) u h =
    subst (λ v. higher w.z_order (v ∷ ss) < higher z (v ∷ ss)) e (higher_self z w ss u h)
higher_lt z (s ∷ ss) w (inr m) u h = let ih = higher_lt z ss w m u h in ground (arith, ltb)

higher-length : (z : ℤ) (ss : List Window) → higher z ss ≤ length ss
unfolding higher
higher-length z [] = omega arith
higher-length z (s ∷ ss) = let ih = higher-length z ss in ground arith

-- What a search finds is a window in use of the table that passes the test.
abbrev pub Fits : (Window → Bool) → Windows → Window → Type 0
Fits ok ws w = IsIn w ws.slots × (w.in_use ≡ true) × (ok w ≡ true)

pub best_from-Fits :
    (ok : Window → Bool) (better : Window → Window → Bool) (ws : Windows) (found : ℕ × Window)
    → best_from ok better none 0 ws.slots ≡ some found
    → Fits ok ws found.1
best_from-Fits ok better ws found e =
    best_from-found (Fits ok ws) ok better none 0 ws.slots found (λ b e'. absurd (cc))
      (all_in _ ws.slots (λ w m u f. (m, u, f))) e

-- `find_at` answers with a window in use that covers the point and no other such window is above it,
-- or with none if there is none.
abbrev pub IsHit : ℤ → ℤ → Windows → Option (ℕ × Window) → Type 0
IsHit x y ws none = Every (λ s. s.in_use ≡ true → covers x y s ≡ false) ws.slots
IsHit x y ws (some (i, w)) =
    Fits (covers x y) ws w
    × Every (λ s. s.in_use ≡ true → covers x y s ≡ true → s.z_order ≤ℤ w.z_order) ws.slots

above_le : (s b : Window) → above s b ≡ true → b.z_order ≤ℤ s.z_order
above_le s b h = ground arith

-- The window that a touch at a point hits covers the point, and no window in use that covers it is
-- above it; if there is no hit, then no window in use covers the point.
pub find_at-IsHit : (x y : ℤ) (ws : Windows) → IsHit x y ws (find_at x y ws)
unfolding find_at
find_at-IsHit x y ws = hit (find_at x y ws) refl
  where
    hit : (o : Option (ℕ × Window)) → find_at x y ws ≡ o → IsHit x y ws o
    hit none e =
        (best_from-none above (λ s b. b.z_order ≤ℤ s.z_order) (λ s. omega arith)
          (λ a b c h k. omega arith) (λ s b h. above_le s b h) (λ s b h. ground arith) (covers x y)
          none 0 ws.slots e).1
    hit (some f) e = (
      best_from-Fits (covers x y) above ws f e,
      (best_from-Beats above (λ s b. b.z_order ≤ℤ s.z_order) (λ s. omega arith)
          (λ a b c h k. omega arith) (λ s b h. above_le s b h) (λ s b h. ground arith) (covers x y)
          none 0 ws.slots f e).1,
    )

-- Each window of the list is in use in the table and above the one before it, the first above `z`.
abbrev pub Ascends : Windows → ℤ → List Window → Type 0
Ascends ws z [] = Unit {0}
Ascends ws z (s ∷ ss) = Fits (λ v. ltb_ℤ z v.z_order) ws s × Ascends ws s.z_order ss

-- A window at that place in the order is in the list.
abbrev pub IsShown : ℤ → List Window → Type 0
IsShown z [] = ⊥
IsShown z (s ∷ ss) = (z ≡ s.z_order) ⊎ IsShown z ss

-- The list is complete above `z`.
abbrev pub ShowsAbove : Windows → ℤ → List Window → Type 0
ShowsAbove ws z l =
    Every (λ s. s.in_use ≡ true → ltb_ℤ z s.z_order ≡ true → IsShown s.z_order l) ws.slots

module _ (z : ℤ) (ws : Windows) where
  next_by_z-least :
      (f : ℕ × Window)
      → next_by_z z ws ≡ some f
      → Every (λ s. s.in_use ≡ true → ltb_ℤ z s.z_order ≡ true → f.1.z_order ≤ℤ s.z_order) ws.slots
  unfolding next_by_z
  next_by_z-least f e =
      (best_from-Beats below (λ s b. s.z_order ≤ℤ b.z_order) (λ s. omega arith)
        (λ a b c h k. omega arith) (λ s b h. above_le b s h) (λ s b h. ground arith)
        (λ s. ltb_ℤ z s.z_order) none 0 ws.slots f e).1

  next_by_z-Fits : (f : ℕ × Window) → next_by_z z ws ≡ some f → Fits (λ s. ltb_ℤ z s.z_order) ws f.1
  unfolding next_by_z
  next_by_z-Fits f e = best_from-Fits (λ s. ltb_ℤ z s.z_order) below ws f e

  next_by_z-none :
      next_by_z z ws ≡ none → Every (λ s. s.in_use ≡ true → ltb_ℤ z s.z_order ≡ false) ws.slots
  unfolding next_by_z
  next_by_z-none e =
      (best_from-none below (λ s b. s.z_order ≤ℤ b.z_order) (λ s. omega arith)
        (λ a b c h k. omega arith) (λ s b h. above_le b s h) (λ s b h. ground arith)
        (λ s. ltb_ℤ z s.z_order) none 0 ws.slots e).1

  -- The walk shows the next window and then all those above it.
  shows_next :
      (f : ℕ × Window) (l : List Window)
      → next_by_z z ws ≡ some f
      → ShowsAbove ws f.1.z_order l
      → ShowsAbove ws z (f.1 ∷ l)
  shows_next f l e all = all_in _ ws.slots (λ s m u above_z.
      let least = Every-IsIn _ ws.slots s (next_by_z-least f e) m u above_z in
      let later = Every-IsIn _ ws.slots s all m u in
      elim (Bool-cases (ltb_ℤ f.1.z_order s.z_order)) [
        | inl y ↦ inr (later y)
        | inr n ↦ inl (eq_of_parts s.z_order f.1.z_order (ground arith))
      ])

walk_up-total :
    (fuel : ℕ) (z : ℤ) (ws : Windows)
    → higher z ws.slots < fuel
    → (l : List Window) × (walk_up fuel z ws ≡ some l) × Ascends ws z l × ShowsAbove ws z l
unfolding walk_up
walk_up-total zero z ws h = absurd (omega arith)
walk_up-total (suc fuel) z ws h = elim (Option-cases (next_by_z z ws)) [
  | inl e ↦ (
    [],
    rw (walk_up, e),
    tt,
    all_in _ ws.slots (λ s m u f.
        absurd (false≢true (sym (Every-IsIn _ ws.slots s (next_by_z-none z ws e) m u) ∙ f))),
  )
  | inr (f, e) ↦
      let fits = next_by_z-Fits z ws f e in
      let fewer = higher_lt z ws.slots f.1 fits.0 fits.1 (ltb_ℤ→lt z f.1.z_order fits.2) in
      let rest = walk_up-total fuel f.1.z_order ws (omega arith) in
      (f.1 ∷ rest.0, rw (walk_up, e, rest.1), (fits, rest.2), shows_next z ws f rest.0 e rest.3)
]

none_ne {ℓ} : {A : Type ℓ} {a : A} → none ≡ some a → ⊥
none_ne e = absurd (cc)

walk_up-Ascends :
    (fuel : ℕ) (z : ℤ) (ws : Windows) (l : List Window)
    → walk_up fuel z ws ≡ some l
    → Ascends ws z l
unfolding walk_up
walk_up-Ascends zero z ws l e = absurd (cc)
walk_up-Ascends (suc fuel) z ws l e = elim (Option-cases (next_by_z z ws)) [
  | inl last ↦ subst (Ascends ws z) (eq_of_some (rw (walk_up, last) at e)) tt
  | inr (f, found) ↦ elim (Option-cases (walk_up fuel f.1.z_order ws)) [
    | inl out ↦ absurd (none_ne (rw (walk_up, found, out) at e))
    | inr (rest, walked) ↦
        subst (Ascends ws z) (eq_of_some (rw (walk_up, found, walked) at e))
          (next_by_z-Fits z ws f found, walk_up-Ascends fuel f.1.z_order ws rest walked)
  ]
]

pub composited-Ascends :
    (fuel : ℕ) (ws : Windows) (l : List Window)
    → composited fuel ws ≡ some l
    → Ascends ws (negsuc 0) l
unfolding composited
composited-Ascends fuel ws l e = walk_up-Ascends fuel (negsuc 0) ws l e

-- In a table of at most 8 windows, the walk that composes a frame ends within 9 rounds. It shows
-- windows in use of the table, in strictly ascending order from 0 up, and for each window in use with
-- an order of at least 0 it shows one that has that order.
pub composited-total :
    (ws : Windows)
    → length ws.slots ≤ window_max
    → (l : List Window) × (composited 9 ws ≡ some l)
      × Ascends ws (negsuc 0) l
      × ShowsAbove ws (negsuc 0) l
unfolding composited
composited-total ws h =
    let few = higher-length (negsuc 0) ws.slots in walk_up-total 9 (negsuc 0) ws (omega arith)
