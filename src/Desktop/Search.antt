-- ===== src/Desktop/Search.antt =====
-- v2/core/kernel/kernel_window.c: the searches of the window table.
use rave_os.Prelude.{
  ℕ, ◌+◌, Bool, true, false, Option, none, some, List, [], ◌∷◌, ◌&&◌, if◌then◌else◌, Every, ◌≡◌,
  ◌⊎◌, inl, inr, refl, sym, subst, ◌∙◌, eq_of_some, Bool-cases,
}
use rave_os.Desktop.Windows.{Window, improves, best_from}

-- What holds of the best so far, and of each window in use that passes the test, holds of the result.
pub best_from-found :
    (P : Window → Type 0) (ok : Window → Bool) (better : Window → Window → Bool)
    (best : Option (ℕ × Window)) (i : ℕ) (ss : List Window) (found : ℕ × Window)
    → ((b : ℕ × Window) → best ≡ some b → P b.1)
    → Every (λ s. s.in_use ≡ true → ok s ≡ true → P s) ss
    → best_from ok better best i ss ≡ some found
    → P found.1
unfolding best_from
best_from-found P ok better best i [] found at all e = at found e
best_from-found P ok better best i (s ∷ ss) found at all e =
    best_from-found P ok better _ (i + 1) ss found
      (picked s.in_use (ok s) (improves better s best) refl refl) all.1 e
  where
    picked :
        (u o z : Bool)
        → s.in_use ≡ u
        → ok s ≡ o
        → (b : ℕ × Window) → (if u && o && z then some (i, s) else best) ≡ some b
        → P b.1
    picked true true true used fits b e' = subst (λ f. P f.1) (eq_of_some e') (all.0 used fits)
    picked true true false used fits b e' = at b e'
    picked true false z used fits b e' = at b e'
    picked false o z used fits b e' = at b e'

-- Membership of the table.
abbrev pub IsIn : Window → List Window → Type 0
IsIn w [] = ⊥
IsIn w (s ∷ ss) = (w ≡ s) ⊎ IsIn w ss

pub Every-IsIn :
    (P : Window → Type 0) (ss : List Window) (w : Window) → Every P ss → IsIn w ss → P w
Every-IsIn P [] w h m = absurd m
Every-IsIn P (s ∷ ss) w h (inl e) = subst P (sym e) h.0
Every-IsIn P (s ∷ ss) w h (inr m) = Every-IsIn P ss w h.1 m

pub all_in :
    (P : Window → Type 0) (ss : List Window) → ((w : Window) → IsIn w ss → P w) → Every P ss
all_in P [] f = tt
all_in P (s ∷ ss) f = (f s (inl refl), all_in P ss (λ w m. f w (inr m)))

-- The comparison `better` of a search agrees with the order `R`.
module _ (better : Window → Window → Bool) (R : Window → Window → Type 0)
    (same : (s : Window) → R s s) (through : (a b c : Window) → R a b → R b c → R a c)
    (won : (s b : Window) → better s b ≡ true → R s b)
    (lost : (s b : Window) → better s b ≡ false → R b s) where
  abbrev pub next_best : (Window → Bool) → Window → Option (ℕ × Window) → ℕ → Option (ℕ × Window)
  next_best ok s best i = if s.in_use && ok s && improves better s best then some (i, s) else best

  -- The result is at least as good as the best so far, and as each candidate.
  abbrev pub Beats : (Window → Bool) → Option (ℕ × Window) → List Window → ℕ × Window → Type 0
  Beats ok best ss found =
      ((b : ℕ × Window) → best ≡ some b → R found.1 b.1)
      × Every (λ s. s.in_use ≡ true → ok s ≡ true → R found.1 s) ss

  pub best_from-Beats :
      (ok : Window → Bool) (best : Option (ℕ × Window)) (i : ℕ) (ss : List Window)
      (found : ℕ × Window)
      → best_from ok better best i ss ≡ some found
      → Beats ok best ss found
  unfolding best_from
  best_from-Beats ok best i [] found e =
      ((λ b e'. subst (λ f. R found.1 f.1) (eq_of_some (sym e ∙ e')) (same found.1)), tt)
  best_from-Beats ok best i (s ∷ ss) found e =
      let ih = best_from-Beats ok (next_best ok s best i) (i + 1) ss found e in
      let r = step s.in_use (ok s) best refl refl ih.0 in (r.0, (r.1, ih.1))
    where
      step :
          (u o : Bool) (best' : Option (ℕ × Window))
          → s.in_use ≡ u
          → ok s ≡ o
          → ((b : ℕ × Window)
              → (if u && o && improves better s best' then some (i, s) else best') ≡ some b
              → R found.1 b.1)
          → ((b : ℕ × Window) → best' ≡ some b → R found.1 b.1)
            × (s.in_use ≡ true → ok s ≡ true → R found.1 s)
      step false o best' used fits h = (h, λ u. absurd (cc))
      step true false best' used fits h = (h, λ u f. absurd (cc))
      step true true none used fits h = ((λ b e'. absurd (cc)), λ u f. h (i, s) refl)
      step true true (some c) used fits h = elim (Bool-cases (better s c.1)) [
        | inl y ↦
            let r = h (i, s) (rw y) in
            (
              (λ b e'.
                  subst (λ d. R found.1 d.1) (eq_of_some e')
                    (through found.1 s c.1 r (won s c.1 y))),
              λ u f. r,
            )
        | inr n ↦
            let r = h c (rw n) in
            (
              (λ b e'. subst (λ d. R found.1 d.1) (eq_of_some e') r),
              λ u f. through found.1 c.1 s r (lost s c.1 n),
            )
      ]

  -- Nothing is found only if there is no candidate.
  pub best_from-none :
      (ok : Window → Bool) (best : Option (ℕ × Window)) (i : ℕ) (ss : List Window)
      → best_from ok better best i ss ≡ none
      → (best ≡ none) × Every (λ s. s.in_use ≡ true → ok s ≡ false) ss
  unfolding best_from
  best_from-none ok best i [] e = (e, tt)
  best_from-none ok best i (s ∷ ss) e =
      let ih = best_from-none ok (next_best ok s best i) (i + 1) ss e in
      let r = step s.in_use (ok s) best refl refl ih.0 in (r.0, (r.1, ih.1))
    where
      step :
          (u o : Bool) (best' : Option (ℕ × Window))
          → s.in_use ≡ u
          → ok s ≡ o
          → (if u && o && improves better s best' then some (i, s) else best') ≡ none
          → (best' ≡ none) × (s.in_use ≡ true → ok s ≡ false)
      step false o best' used fits h = (h, λ u. absurd (cc))
      step true false best' used fits h = (h, λ u. fits)
      step true true none used fits h = absurd (cc)
      step true true (some c) used fits h = elim (Bool-cases (better s c.1)) [
        | inl y ↦ absurd (cc)
        | inr n ↦ absurd (cc)
      ]
