-- ===== src/Synth/Envelope.antt =====
-- kernel/audio/synth.c: how long a note takes to end, and silence.
use rave_os.Prelude.{
  sym, ◌∙◌, ap, subst, pos_part, min, if◌then◌else◌, ℕ, zero, suc, ◌-◌, ◌*◌, ◌/◌, ◌%◌, ◌^◌, ◌≤◌,
  ◌<◌, true, ◌==◌, ltb, ◌≡◌, ◌⊎◌, inl, inr, refl, if_both, if_cases, ltb→lt, arith, ℤ,
}
use Prim.Native.Nat.{max}
use mathlib.Core.Bool.{false≢true}
use native.Mathlib.Nat.{div-le_self}
use rave_os.Synth.Setters.{Yields}
use rave_os.Synth.Voice.{
  Voice, Stage, env_off, attack, decay, sustain, release, full_q8, clamped, calc_rate, gate_off,
  is_off, advance_at, advance_sample, sample_rate,
}

-- The envelope over a number of samples.
unfoldable pub advance_times : ℕ → Voice → Voice
advance_times zero v = v
advance_times (suc n) v = advance_times n (advance_sample v)

abbrev IsSilent : Voice → Type 0
IsSilent v = (v.stage ≡ env_off) × (v.level ≡ 0)

off_next : (s : Stage) (v : Voice) → s ≡ env_off → v.stage ≡ env_off → IsSilent (advance_at s v)
off_next s v e same = rw e (same, refl)

off_stays : (n : ℕ) (v : Voice) → IsSilent v → IsSilent (advance_times n v)
unfolding advance_times advance_sample
off_stays zero v h = h
off_stays (suc n) v h = off_stays n (advance_at v.stage v) (off_next v.stage v h.0 h.0)

suc_times : (n r l : ℕ) → l ≤ suc n * r → l - r ≤ n * r
suc_times n r l h = omega arith

release_next :
    (s : Stage) (v : Voice)
    → s ≡ release
    → v.stage ≡ release
    → IsSilent (advance_at s v)
      ⊎ ((v.release_rate < v.level)
          × ((advance_at s v).stage ≡ release)
          × ((advance_at s v).level ≡ v.level - v.release_rate)
          × ((advance_at s v).release_rate ≡ v.release_rate))
release_next s v e same = rw e (
    if_cases
      (λ (w : Voice).
        IsSilent w
        ⊎ ((v.release_rate < v.level)
            × (w.stage ≡ release)
            × (w.level ≡ v.level - v.release_rate)
            × (w.release_rate ≡ v.release_rate)))
      (ltb v.release_rate v.level)
      (λ more. inr (ltb→lt v.release_rate v.level more, same, refl, refl))
      (λ last. inl (refl, refl)))

released :
    (n : ℕ) (v : Voice)
    → v.stage ≡ release
    → 1 ≤ n
    → v.level ≤ n * v.release_rate
    → IsSilent (advance_times n v)
unfolding advance_times advance_sample
released zero v e one h = absurd (omega arith)
released (suc n) v e one h = elim (release_next v.stage v e e) [
  | inl done ↦ off_stays n (advance_at v.stage v) done
  | inr more ↦
      let v' = advance_at v.stage v in
      let left : v'.level ≤ n * v'.release_rate =
        rw (more.2, more.3) (suc_times n v.release_rate v.level h) in
      released n v' more.1 (later n v.release_rate v.level more.0 h) left
]
  where
    later : (n r l : ℕ) → r < l → l ≤ suc n * r → 1 ≤ n
    later zero r l lt le = absurd (omega arith)
    later (suc n) r l lt le = omega arith

off_first : (n : ℕ) (v : Voice) → 1 ≤ n → v.stage ≡ env_off → IsSilent (advance_times n v)
unfolding advance_times advance_sample
off_first zero v one e = absurd (omega arith)
off_first (suc n) v one e = off_stays n (advance_at v.stage v) (off_next v.stage v e e)

is_off-stage : (s : Stage) → is_off s ≡ true → s ≡ env_off
is_off-stage env_off e = refl
is_off-stage attack e = absurd (false≢true e)
is_off-stage decay e = absurd (false≢true e)
is_off-stage sustain e = absurd (false≢true e)
is_off-stage release e = absurd (false≢true e)

-- If a voice's level is at most n times its release rate, and n is not 0, then n samples after its gate
-- is closed, whatever its stage was, its envelope is off and its level is 0.
pub advance_times-gate_off :
    (n : ℕ) (v : Voice)
    → 1 ≤ n
    → v.level ≤ n * v.release_rate
    → Yields
        (λ w. ((advance_times n w).stage ≡ env_off) × ((advance_times n w).level ≡ 0))
        (gate_off v)
unfolding gate_off
advance_times-gate_off n v one h =
    if_cases (λ (w : Voice). IsSilent (advance_times n w)) (is_off v.stage)
      (λ off. off_first n v one (is_off-stage v.stage off))
      (λ on. released n (record v { stage = release }) refl one h)

clamped-min : (ms : ℤ) → clamped 0 100000 ms ≡ min (pos_part ms) 100000
clamped-min ms = ground arith

-- The rate for a number of samples.
abbrev pub rate_for : ℕ → ℕ
rate_for samples = if samples == 0 then full_q8 else max 1 (full_q8 / samples)

rate_for-bounds : (samples : ℕ) → (1 ≤ rate_for samples) × (rate_for samples ≤ full_q8)
rate_for-bounds samples =
    let le = div-le_self full_q8 samples in
    if_both (λ (n : ℕ). (1 ≤ n) × (n ≤ full_q8)) (samples == 0) (omega arith, omega arith)
      (omega arith, omega arith)

at_least_one : (n : ℕ) → (if n == 0 then 1 else n) ≡ max 1 n
at_least_one n = ground arith

calc_rate-exact : (ms : ℤ) → calc_rate ms ≡ rate_for (min (pos_part ms) 100000 * sample_rate / 1000)
unfolding calc_rate
calc_rate-exact ms =
    let unwrapped : clamped 0 100000 ms * sample_rate % 2 ^ 32 / 1000
        ≡ min (pos_part ms) 100000 * sample_rate / 1000 =
      omega (arith, clamped-min ms) in
    ap (λ n. if n == 0 then full_q8 else if full_q8 / n == 0 then 1 else full_q8 / n) unwrapped
    ∙ ap (λ n. if min (pos_part ms) 100000 * sample_rate / 1000 == 0 then full_q8 else n)
        (at_least_one (full_q8 / (min (pos_part ms) 100000 * sample_rate / 1000)))

-- Whatever duration is asked for, also a negative or a huge one, the rate is the full scale divided by
-- the number of samples in the duration, of at most 100 seconds, computed on numbers that do not wrap
-- around; it is at least 1 and at most the full scale, which is the rate for no sample at all.
pub calc_rate-bounds :
    (ms : ℤ)
    → (calc_rate ms ≡ rate_for (min (pos_part ms) 100000 * sample_rate / 1000))
      × (1 ≤ calc_rate ms)
      × (calc_rate ms ≤ full_q8)
calc_rate-bounds ms =
    let e = calc_rate-exact ms in
    let b = rate_for-bounds (min (pos_part ms) 100000 * sample_rate / 1000) in
    (e, subst (λ n. 1 ≤ n) (sym e) b.0, subst (λ n. n ≤ full_q8) (sym e) b.1)
