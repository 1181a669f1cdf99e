-- ===== src/Fs/Safety/Ensures.antt =====
-- Postconditions of the filesystem's steps: an invariant on every way out, and a fact about the
-- value on success.
use rave_os.Prelude.{Bool, true, false, ◌≡◌, refl, Option, none, some}
use rave_os.Fs.Disk.{State, Result, ok, fail, M, and_then, ◌>>=◌, guard, from_option}

module _ (I : State → Type 0) where
  abbrev pub Post : {A : Type 0} → (A → Type 0) → Result A × State → Type 0
  Post Q (ok a, s) = Q a × I s
  Post Q (fail, s) = I s

  abbrev pub Ensures : {A : Type 0} → (A → Type 0) → M A → Type 0
  Ensures Q m = (s : State) → I s → Post Q (m s)

  Post-and_then :
      {A B : Type 0} (Q : A → Type 0) (R : B → Type 0) (f : A → M B) (r : Result A × State)
      → Post Q r
      → ((a : A) → Q a → Ensures R (f a))
      → Post R (and_then r f)
  Post-and_then Q R f (ok a, s) h k = k a h.0 s h.1
  Post-and_then Q R f (fail, s) h k = h

  pub bind :
      {A B : Type 0} (Q : A → Type 0) (R : B → Type 0) (m : M A) (f : A → M B)
      → Ensures Q m
      → ((a : A) → Q a → Ensures R (f a))
      → Ensures R (m >>= f)
  bind Q R m f hm k s i = Post-and_then Q R f (m s) (hm s i) k

  pub guard-Ensures : (b : Bool) → Ensures (λ _. b ≡ true) (guard b)
  guard-Ensures true s i = (refl, i)
  guard-Ensures false s i = i

  pub from_option-Ensures : {A : Type 0} (o : Option A) → Ensures (λ a. o ≡ some a) (from_option o)
  from_option-Ensures none s i = i
  from_option-Ensures (some a) s i = (refl, i)

  pub Post-state : {A : Type 0} (Q : A → Type 0) (r : Result A × State) → Post Q r → I r.1
  Post-state Q (ok a, s) h = h.1
  Post-state Q (fail, s) h = h
