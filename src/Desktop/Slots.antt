-- ===== src/Desktop/Slots.antt =====
-- v2/core/kernel/kernel_window.c: how many slots of the window table are taken.
use rave_os.Prelude.{
  if_cases, suc, ◌+◌, ◌<◌, ◌≤◌, true, false, Option, none, some, List, [], ◌∷◌, if◌then◌else◌, ltb,
  length, ◌≡◌, refl, ap, arith,
}
use rave_os.Desktop.Windows.{
  Window, Windows, register_from, registered, register, count_from, count,
}

-- What taking a slot does to the table: none is free, or one more is in use.
abbrev Taken : List Window → Option (List Window) → Type 0
Taken ss none = count_from ss ≡ length ss
Taken ss (some ss') =
    (count_from ss < length ss) × (count_from ss' ≡ suc (count_from ss)) × (length ss' ≡ length ss)

count_from-le : (ss : List Window) → count_from ss ≤ length ss
unfolding count_from
count_from-le [] = omega arith
count_from-le (s ∷ ss) = let ih = count_from-le ss in ground arith

later_slot :
    (s : Window) (ss : List Window) (o : Option (List Window))
    → s.in_use ≡ true
    → Taken ss o
    → Taken (s ∷ ss) (elim o [ none ↦ none | some ss' ↦ some (s ∷ ss') ])
unfolding count_from
later_slot s ss none used h = rw used (omega (arith, h))
later_slot s ss (some ss') used h = rw used (omega (arith, h.0), omega (arith, h.1), ap suc h.2)

free_slot :
    (win s : Window) (ss : List Window)
    → win.in_use ≡ true
    → s.in_use ≡ false
    → Taken (s ∷ ss) (some (win ∷ ss))
unfolding count_from
free_slot win s ss used free =
    let le = count_from-le ss in rw used (rw free (omega (arith, le), omega arith, refl))

registered_count :
    (ws : Windows) (o : Option (List Window))
    → Taken ws.slots o
    → (let r = registered ws o in
        (r.0 ≡ ltb (count ws) (length ws.slots))
        × (count r.1 ≡ count ws + (if r.0 then 1 else 0))
        × (length r.1.slots ≡ length ws.slots))
unfolding count
registered_count ws none h = (rw h (ground arith), omega arith, refl)
registered_count ws (some slots) h = (let free = h.0 in ground arith, omega (arith, h.1), h.2)

register_from-Taken :
    (win : Window) (ss : List Window) → win.in_use ≡ true → Taken ss (register_from win ss)
unfolding register_from count_from
register_from-Taken win [] used = refl
register_from-Taken win (s ∷ ss) used =
    if_cases (Taken (s ∷ ss)) s.in_use
      (λ y. later_slot s ss (register_from win ss) y (register_from-Taken win ss used))
      (λ n. free_slot win s ss used n)

-- Registering a window succeeds exactly if a slot of the table is free; then one more slot is in use,
-- and otherwise none; the table keeps its size.
pub register-count :
    (win : Window) (ws : Windows)
    → (let r = register win ws in
        (r.0 ≡ ltb (count ws) (length ws.slots))
        × (count r.1 ≡ count ws + (if r.0 then 1 else 0))
        × (length r.1.slots ≡ length ws.slots))
unfolding register count
register-count win ws =
    let taken = record win { z_order = ws.next_z; in_use = true } in
    registered_count ws (register_from taken ws.slots) (register_from-Taken taken ws.slots refl)
