-- ===== src/Desktop/Owner.antt =====
-- v2/core/kernel/kernel_overlay.c: the calls of several tasks.
use rave_os.Prelude.{
  ℕ, Bool, true, false, Option, some, List, [], ◌∷◌, ◌==◌, ◌&&◌, ◌||◌, not, if◌then◌else◌, Every,
  ◌≡◌, ◌≢◌, refl, sym, ap, arith,
}
use rave_os.Desktop.Overlay.{Overlay, owned_by, open_overlay, close, release_owner}

-- A call of the overlay's, by a task; `asks` carries what `gfx_create_canvas` would answer.
pub data OverlayCall : Type 0 where
  asks : ℕ → Option ℕ → OverlayCall
  gives_up dies : ℕ → OverlayCall

abbrev pub caller : OverlayCall → ℕ
caller (asks t created) = t
caller (gives_up t) = t
caller (dies t) = t

unfoldable pub call : Overlay → OverlayCall → Overlay
unfolding open_overlay close release_owner
call ov (asks t created) = (open_overlay t created ov).1
call ov (gives_up t) = close t ov
call ov (dies t) = release_owner t ov

unfoldable pub call_all : Overlay → List OverlayCall → Overlay
call_all ov [] = ov
call_all ov (c ∷ cs) = call_all (call ov c) cs

neq→== : (a b : ℕ) → a ≢ b → (a == b) ≡ false
neq→== a b ne = ground arith

if_true {ℓ} : {A : Type ℓ} {b : Bool} (x y : A) → b ≡ true → (if b then x else y) ≡ x
if_true x y e = rw e

and_not : {a b : Bool} → a ≡ true → b ≡ false → (a && not b) ≡ true
and_not e n = rw (e, n)

or_not : {a b : Bool} → a ≡ true → b ≡ false → (not a || not b) ≡ true
or_not e n = rw (e, n)

owned_by-other : (t u : ℕ) (owner : Option ℕ) → owner ≡ some t → u ≢ t → owned_by u owner ≡ false
owned_by-other t u owner e ne = rw (e, neq→== t u (λ s. ne (sym s)))

call-owned :
    (t : ℕ) (c : OverlayCall) (ov : Overlay)
    → ov.is_open ≡ true
    → ov.owner ≡ some t
    → caller c ≢ t
    → call ov c ≡ ov
unfolding call open_overlay close release_owner
call-owned t c ov is_open owner ne = refused c (owned_by-other t (caller c) ov.owner owner ne)
  where
    refused : (c : OverlayCall) → owned_by (caller c) ov.owner ≡ false → call ov c ≡ ov
    refused (asks u created) n =
        let r : open_overlay u created ov ≡ (false, ov) = if_true _ _ (and_not is_open n) in
        ap (λ o. o.1) r
    refused (gives_up u) n = if_true _ _ (or_not is_open n)
    refused (dies u) n = if_true _ _ (or_not is_open n)

-- While a task has the overlay open, no sequence of calls by other tasks changes anything of it.
pub call_all-owned :
    (t : ℕ) (cs : List OverlayCall) (ov : Overlay)
    → ov.is_open ≡ true
    → ov.owner ≡ some t
    → Every (λ c. caller c ≢ t) cs
    → call_all ov cs ≡ ov
unfolding call_all
call_all-owned t [] ov is_open owner others = refl
call_all-owned t (c ∷ cs) ov is_open owner others =
    rw (call-owned t c ov is_open owner others.0) (call_all-owned t cs ov is_open owner others.1)
