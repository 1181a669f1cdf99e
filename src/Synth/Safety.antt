-- ===== src/Synth/Safety.antt =====
-- kernel/audio/synth.c: the accesses of its calls.
use rave_os.Prelude.{
  ℕ, zero, suc, ◌+◌, ◌-◌, ◌%◌, ◌^◌, ◌≤◌, ◌<◌, Bool, true, false, Option, none, some, List, [], ◌∷◌,
  not, ltb, leb, get_elem?, set, length, length-set, Every, ◌≡◌, inl, inr, refl, ◌∙◌, Bool-cases,
  if_both, if_cases, arith,
}
use rave_os.Synth.Voice.{
  Voice, Stage, env_off, attack, decay, sustain, release, full_q8, advance_at, advance_sample,
}
use rave_os.Synth.Render.{
  ◌>>=◌, Mix, next_step, retuned, step_arp, ring_phase, voice_sample, mix_voice, mix_from,
  osc_sample,
}
use rave_os.Synth.Setters.{Yields, IsKey, RingOk, VoiceOk, tuned-VoiceOk}

pub bind-Yields :
    {A B : Type 0} (P : A → Type 0) (Q : B → Type 0) (m : Option A) (f : A → Option B)
    → Yields P m
    → ((a : A) → P a → Yields Q (f a))
    → Yields Q (m >>= f)
bind-Yields P Q none f h k = absurd h
bind-Yields P Q (some a) f h k = k a h

-- An element of a list all of whose elements satisfy the predicate.
pub get_elem?-Yields :
    {A : Type 0} (P : A → Type 0) (xs : List A) (n : ℕ)
    → Every P xs
    → n < length xs
    → Yields P (get_elem? xs n)
get_elem?-Yields P [] n h k = absurd (omega arith)
get_elem?-Yields P (x ∷ xs) zero h k = h.0
get_elem?-Yields P (x ∷ xs) (suc n) h k = get_elem?-Yields P xs n h.1 (omega arith)

Every-set :
    {A : Type 0} (P : A → Type 0) (xs : List A) (n : ℕ) (v : A)
    → P v
    → Every P xs
    → Every P (set xs n v)
Every-set P [] n v p h = h
Every-set P (x ∷ xs) zero v p h = (p, h.1)
Every-set P (x ∷ xs) (suc n) v p h = (h.0, Every-set P xs n v p h.1)

abbrev pub VoicesOk : List Voice → Type 0
VoicesOk vs = (length vs ≡ 8) × Every VoiceOk vs

pub VoicesOk-set :
    (vs : List Voice) (n : ℕ) (v : Voice) → VoiceOk v → VoicesOk vs → VoicesOk (set vs n v)
VoicesOk-set vs n v p h = (length-set vs n v ∙ h.0, Every-set VoiceOk vs n v p h.1)

-- The envelope and the arpeggio.
abbrev pub MixOk : Mix → Type 0
MixOk m = VoicesOk m.voices

pub advance_at-VoiceOk : (stage : Stage) (v : Voice) → VoiceOk v → VoiceOk (advance_at stage v)
advance_at-VoiceOk env_off v h = (h.0, h.1, (omega arith, h.2.1))
advance_at-VoiceOk attack v h = elim (Bool-cases (leb full_q8 (v.level + v.attack_rate))) [
  | inl e ↦ rw e (h.0, h.1, (omega arith, h.2.1))
  | inr e ↦ rw e (h.0, h.1, (ground arith, h.2.1))
]
advance_at-VoiceOk decay v h =
    if_both VoiceOk (ltb v.sustain_level v.level)
      (if_both VoiceOk (leb (v.level - v.decay_rate) v.sustain_level) (h.0, h.1, (h.2.1, h.2.1))
        (h.0, h.1, (lower v.decay_rate, h.2.1)))
      h
  where
    lower : (d : ℕ) → v.level - d ≤ full_q8
    lower d = let l = h.2.0 in omega arith
advance_at-VoiceOk sustain v h = (h.0, h.1, (h.2.1, h.2.1))
advance_at-VoiceOk release v h =
    if_both VoiceOk (ltb v.release_rate v.level) (h.0, h.1, (lower v.release_rate, h.2.1))
      (h.0, h.1, (omega arith, h.2.1))
  where
    lower : (d : ℕ) → v.level - d ≤ full_q8
    lower d = let l = h.2.0 in omega arith

advance_sample-VoiceOk : (v : Voice) → VoiceOk v → VoiceOk (advance_sample v)
unfolding advance_sample
advance_sample-VoiceOk v h = advance_at-VoiceOk v.stage v h

next_step-Yields : (v : Voice) → VoiceOk v → v.arp_active ≡ true → Yields (λ n. n < 4) (next_step v)
next_step-Yields v h on = let bounds = h.0.2 on in ground arith

of_not-false : (b : Bool) → not b ≡ false → b ≡ true
of_not-false true e = refl
of_not-false false e = cc

step_arp-VoiceOk : (v : Voice) → VoiceOk v → Yields VoiceOk (step_arp v)
unfolding step_arp
step_arp-VoiceOk v h =
    if_cases (Yields VoiceOk) (not v.arp_active) (λ off. h)
      (λ on.
        if_both (Yields VoiceOk) (leb v.arp_step_rate (v.arp_step_counter + 1))
          (bind-Yields (λ n. n < 4) VoiceOk (next_step v) (retuned v)
            (next_step-Yields v h (of_not-false v.arp_active on))
            (λ step lt.
              bind-Yields IsKey VoiceOk (get_elem? v.arp_notes step) _
                (get_elem?-Yields IsKey v.arp_notes step h.0.1 (omega (arith, h.0.0)))
                (λ note key.
                  tuned-VoiceOk note (record v { arp_step_counter = 0; arp_step = step }) key
                    ((h.0.0, h.0.1, h.0.2, lt), h.1, h.2))))
          h)

ring_phase-Yields :
    (vs : List Voice) (ring : Option ℕ)
    → VoicesOk vs
    → RingOk ring
    → Yields (λ o. Unit {0}) (ring_phase vs ring)
ring_phase-Yields vs none h r = tt
ring_phase-Yields vs (some p) h r =
    bind-Yields VoiceOk (λ o. Unit {0}) (get_elem? vs p) _
      (get_elem?-Yields VoiceOk vs p h.1 (omega (arith, h.0))) (λ v k. tt)

voice_sample-VoiceOk :
    (v : Voice) (ring : Option ℕ) → VoiceOk v → Yields (λ r. VoiceOk r.1) (voice_sample v ring)
unfolding voice_sample
voice_sample-VoiceOk v ring h =
    let accum = (v.phase_accum + v.phase_increment) % 2 ^ 32 in
    let osc =
      osc_sample v.waveform v.phase_accum v.duty_threshold v.noise_lfsr (ltb accum v.phase_accum)
        ring in
    let v' = advance_sample (record v { noise_lfsr = osc.1 }) in
    bind-Yields VoiceOk (λ r. VoiceOk r.1) (step_arp (record v' { phase_accum = accum })) _
      (step_arp-VoiceOk (record v' { phase_accum = accum })
        (advance_sample-VoiceOk (record v { noise_lfsr = osc.1 }) h))
      (λ v'' k. k)

mix_voice-VoicesOk :
    (n : ℕ) (m : Mix)
    → n < 8
    → VoicesOk m.voices
    → Yields (λ m'. VoicesOk m'.voices) (mix_voice n m)
unfolding mix_voice
mix_voice-VoicesOk n m lt h =
    bind-Yields VoiceOk MixOk (get_elem? m.voices n) _
      (get_elem?-Yields VoiceOk m.voices n h.1 (omega (arith, h.0)))
      (λ v k.
        bind-Yields (λ o. Unit {0}) MixOk (ring_phase m.voices v.ring_partner) _
          (ring_phase-Yields m.voices v.ring_partner h k.1)
          (λ ring u.
            bind-Yields (λ r. VoiceOk r.1) MixOk (voice_sample v ring) _
              (voice_sample-VoiceOk v ring k)
              (λ r k'.
                let stored = VoicesOk-set m.voices n r.1 k' h in
                if_both MixOk v.filter_route stored stored)))

pub mix_from-VoicesOk :
    (rounds n : ℕ) (m : Mix)
    → n + rounds ≤ 8
    → VoicesOk m.voices
    → Yields MixOk (mix_from rounds n m)
unfolding mix_from
mix_from-VoicesOk zero n m le h = h
mix_from-VoicesOk (suc rounds) n m le h =
    bind-Yields MixOk MixOk (mix_voice n m) (mix_from rounds (n + 1))
      (mix_voice-VoicesOk n m (omega arith) h)
      (λ m' h'. mix_from-VoicesOk rounds (n + 1) m' (omega arith) h')
