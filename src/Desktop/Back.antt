-- ===== src/Desktop/Back.antt =====
-- v2/core/kernel/kernel_window.c, kernel_window_send_to_back, and the frames composed after it.
use rave_os.Prelude.{
  get_elem?-set_self, get_elem?-lt, -ℤ_parts, ltb_ℤ→lt, ℕ, ◌+◌, Bool, true, some, List, [], ◌∷◌,
  ◌==◌, ◌&&◌, not, get_elem?, ◌≡◌, inl, inr, sym, ap, subst, Bool-cases, arith, ℤ, pos, negsuc,
  ◌-ℤ◌, ◌≤ℤ◌, ◌<ℤ◌, ltb_ℤ,
}
use rave_os.Desktop.Windows.{
  Window, Windows, is_of, by_task, lowest_from, backed, send_to_back, composited,
}
use rave_os.Desktop.Composite.{Ascends, IsShown, composited-Ascends}
use rave_os.Desktop.Registered.{get_elem?-by_task, by_task-is_of}

lowest_from-le : (own : ℕ) (z : ℤ) (i : ℕ) (ss : List Window) → lowest_from own z i ss ≤ℤ z
unfolding lowest_from
lowest_from-le own z i [] = omega arith
lowest_from-le own z i (s ∷ ss) =
    elim (Bool-cases (s.in_use && not (i == own) && ltb_ℤ s.z_order z)) [
      | inl y ↦
          let ih = lowest_from-le own s.z_order (i + 1) ss in
          let lower : s.z_order ≤ℤ z = lower (s.in_use) (not (i == own)) y in rw y (omega arith)
      | inr n ↦ rw n (lowest_from-le own z (i + 1) ss)
    ]
  where
    lower : (u o : Bool) → (u && o && ltb_ℤ s.z_order z) ≡ true → s.z_order ≤ℤ z
    lower u o h = ground arith

-- No window below 0 is in an ascending list that starts above -1.
Ascends-IsShown :
    (ws : Windows) (z z' : ℤ) (l : List Window) → Ascends ws z l → IsShown z' l → z <ℤ z'
Ascends-IsShown ws z z' [] h m = absurd m
Ascends-IsShown ws z z' (s ∷ ss) h (inl e) = rw e (ltb_ℤ→lt z s.z_order h.0.2)
Ascends-IsShown ws z z' (s ∷ ss) h (inr m) =
    let first = ltb_ℤ→lt z s.z_order h.0.2 in
    let later = Ascends-IsShown ws s.z_order z' ss h.1 m in omega arith

-- If a window's order is at most 0 and it is sent to the back, then it is still in use in its slot,
-- but no frame that is composed then shows a window of its order.
pub send_to_back-hidden :
    (t : ℕ) (f : ℕ × Window) (ws : Windows) (fuel : ℕ) (l : List Window)
    → by_task t ws ≡ some f
    → f.1.z_order ≤ℤ pos 0
    → composited fuel (send_to_back t ws) ≡ some l
    → (w : Window) × (get_elem? (send_to_back t ws).slots f.0 ≡ some w)
      × (is_of t w ≡ true)
      × ¬ IsShown w.z_order l
unfolding send_to_back
send_to_back-hidden t f ws fuel l e low walked =
    let z = lowest_from f.0 f.1.z_order 0 ws.slots -ℤ pos 1 in
    let below_all = lowest_from-le f.0 f.1.z_order 0 ws.slots in
    let less = -ℤ_parts (lowest_from f.0 f.1.z_order 0 ws.slots) (pos 1) in
    let ends : backed ws (some f) ≡ send_to_back t ws = ap (backed ws) (sym e) in
    let at = get_elem?-lt ws.slots f.0 (get_elem?-by_task t ws f e) in
    (
      record f.1 { z_order = z },
      subst (λ ws'. get_elem? ws'.slots f.0 ≡ some (record f.1 { z_order = z })) ends
          (get_elem?-set_self ws.slots f.0 (record f.1 { z_order = z }) at),
      by_task-is_of t ws f e,
      λ m.
          let above_it =
            Ascends-IsShown (send_to_back t ws) (negsuc 0) z l
              (composited-Ascends fuel (send_to_back t ws) l walked) m in
          omega arith,
    )
