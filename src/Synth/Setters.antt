-- ===== src/Synth/Setters.antt =====
-- kernel/audio/synth.c: the voices that its calls leave.
use rave_os.Prelude.{
  ltb, if_cases, ℕ, zero, suc, ◌*◌, ◌/◌, ◌≤◌, ◌<◌, true, Option, none, some, List, [], ◌∷◌, ◌==◌,
  get_elem?_exists, set, length, length-set, Every, ◌≡◌, refl, ◌∙◌, if_both, arith, ℤ, pos, negsuc,
}
use rave_os.Synth.Tables.{ona_phase_increment}
use rave_os.Synth.Voice.{
  Voice, full_q8, env_full, within, clamped, increment_of, tuned, set_waveform, set_duty, set_ona,
  set_ring_partner, clear_ring_partner, set_filter_route, set_arp_note, arp_on, arp_off,
  set_arp_rate, set_adsr, gate_on, gate_off, gated, started, first_note, is_off,
}
use rave_os.Synth.Render.{
  VoiceCall, waveform, duty, ona, ring_partner, filter_route, arp_count, arp_rate, no_ring_partner,
  no_arp, gate_up, gate_down, arp_note, adsr, voice_call,
}

-- There is a result and it satisfies the predicate.
abbrev pub Yields : {A : Type 0} → (A → Type 0) → Option A → Type 0
Yields P none = ⊥
Yields P (some a) = P a

abbrev pub IsKey : ℕ → Type 0
IsKey n = (1 ≤ n) × (n ≤ 88)

abbrev pub RingOk : Option ℕ → Type 0
RingOk none = Unit {0}
RingOk (some p) = p < 8

-- The fields with which a voice's sample reads tables, other voices and its own arpeggio, and the
-- range of its envelope.
abbrev pub ArpOk : Voice → Type 0
ArpOk v =
    (length v.arp_notes ≡ 4)
    × Every IsKey v.arp_notes
    × (v.arp_active ≡ true → (2 ≤ v.arp_count) × (v.arp_count ≤ 4))
    × (v.arp_step < 4)

abbrev pub EnvelopeOk : Voice → Type 0
EnvelopeOk v = (v.level ≤ full_q8) × (v.sustain_level ≤ full_q8)

abbrev pub VoiceOk : Voice → Type 0
VoiceOk v = ArpOk v × RingOk v.ring_partner × EnvelopeOk v

pub within-bounds : (lo hi n : ℕ) (z : ℤ) → within lo hi z ≡ some n → (lo ≤ n) × (n ≤ hi)
within-bounds lo hi n (pos m) e = ground arith
within-bounds lo hi n (negsuc m) e = absurd (cc)

pub increment_of_key : (n : ℕ) → IsKey n → (i : ℕ) × (increment_of n ≡ some i)
increment_of_key zero k = absurd (omega arith)
increment_of_key (suc n) k = get_elem?_exists ona_phase_increment n (omega arith)

pub tuned-VoiceOk :
    (n : ℕ) (v : Voice) → IsKey n → VoiceOk v → Yields VoiceOk (tuned (increment_of n) v)
tuned-VoiceOk n v k h = rw (increment_of_key n k).1 h

-- A guarded argument, where the guard holds and where it does not.
in_range :
    (P : Option Voice → Type 0) (lo hi : ℕ) (z : ℤ) (skip : Option Voice) (f : ℕ → Option Voice)
    → P skip
    → ((n : ℕ) → lo ≤ n → n ≤ hi → P (f n))
    → P (elim (within lo hi z) [ none ↦ skip | some n ↦ f n ])
in_range P lo hi z skip f p q = go (within lo hi z) refl
  where
    go : (o : Option ℕ) → within lo hi z ≡ o → P (elim o [ none ↦ skip | some n ↦ f n ])
    go none e = p
    go (some n) e = let b = within-bounds lo hi n z e in q n b.0 b.1

Every-set-IsKey : (ns : List ℕ) (i n : ℕ) → IsKey n → Every IsKey ns → Every IsKey (set ns i n)
Every-set-IsKey [] i n k h = h
Every-set-IsKey (m ∷ ns) zero n k h = (k, h.1)
Every-set-IsKey (m ∷ ns) (suc i) n k h = (h.0, Every-set-IsKey ns i n k h.1)

set_ona-VoiceOk : (z : ℤ) (v : Voice) → VoiceOk v → Yields VoiceOk (set_ona z v)
unfolding set_ona
set_ona-VoiceOk z v h =
    in_range (Yields VoiceOk) 1 88 z (some v) (λ n. tuned (increment_of n) v) h
      (λ n lo hi. tuned-VoiceOk n v (lo, hi) h)

set_arp_note-VoiceOk :
    (slot note : ℤ) (v : Voice) → VoiceOk v → Yields VoiceOk (set_arp_note slot note v)
unfolding set_arp_note
set_arp_note-VoiceOk slot note v h = in_range (Yields VoiceOk) 0 3 slot (some v) _ h (λ i _ at.
    in_range (Yields VoiceOk) 1 88 note (some v) _ h (λ n lo hi.
      if_cases (Yields VoiceOk) (ltb i (length v.arp_notes))
        (λ inside. (
          (
            length-set v.arp_notes i n ∙ h.0.0,
            Every-set-IsKey v.arp_notes i n (lo, hi) h.0.1,
            h.0.2,
            h.0.3,
          ),
          h.1,
          h.2,
        ))
        (λ outside. let four = h.0.0 in absurd (ground arith))))

gate_on-VoiceOk : (v : Voice) → VoiceOk v → Yields VoiceOk (gate_on v)
unfolding gate_on
gate_on-VoiceOk v h =
    if_both (Yields VoiceOk) v.arp_active (go v.arp_notes h.0.0 h.0.1) (starts v h)
  where
    starts : (w : Voice) → VoiceOk w → VoiceOk (started w)
    starts w k = if_both VoiceOk (w.phase_increment == 0) k (k.0, k.1, (omega arith, k.2.1))

    first : (o : Option Voice) → Yields VoiceOk o → Yields VoiceOk (gated o)
    first none k = k
    first (some w) k = starts w k

    go :
        (ns : List ℕ)
        → length ns ≡ 4
        → Every IsKey ns
        → Yields VoiceOk
            (gated (tuned (first_note ns) (record v { arp_step = 0; arp_step_counter = 0 })))
    go [] e k = absurd (omega arith)
    go (n ∷ ns) e k =
        first (tuned (increment_of n) (record v { arp_step = 0; arp_step_counter = 0 })) (
          tuned-VoiceOk n (record v { arp_step = 0; arp_step_counter = 0 }) k.0
            ((h.0.0, h.0.1, h.0.2, omega arith), h.1, h.2))

pub clamped-le : (lo hi : ℕ) (z : ℤ) → lo ≤ hi → clamped lo hi z ≤ hi
clamped-le lo hi z h = ground arith

pub sustain_le : (n : ℕ) → n ≤ 100 → n * env_full / 100 * 256 ≤ full_q8
sustain_le n h = omega arith

pub voice_call-VoiceOk : (c : VoiceCall) (v : Voice) → VoiceOk v → Yields VoiceOk (voice_call c v)
unfolding voice_call set_waveform set_duty set_ring_partner set_filter_route arp_on set_arp_rate
    clear_ring_partner arp_off gate_off set_adsr
voice_call-VoiceOk (waveform n) v h = in_range (Yields VoiceOk) 0 3 n (some v) _ h (λ n lo hi. h)
voice_call-VoiceOk (duty n) v h = h
voice_call-VoiceOk (ona n) v h = set_ona-VoiceOk n v h
voice_call-VoiceOk (ring_partner n) v h =
    in_range (Yields VoiceOk) 0 7 n (some v) _ h (λ n lo hi. (h.0, omega arith, h.2))
voice_call-VoiceOk (filter_route n) v h = h
voice_call-VoiceOk (arp_count n) v h =
    in_range (Yields VoiceOk) 2 4 n (some v) _ h
      (λ n lo hi. ((h.0.0, h.0.1, (λ e. (lo, hi)), h.0.3), h.1, h.2))
voice_call-VoiceOk (arp_rate n) v h = h
voice_call-VoiceOk no_ring_partner v h = (h.0, tt, h.2)
voice_call-VoiceOk no_arp v h = ((h.0.0, h.0.1, (λ e. absurd (cc)), h.0.3), h.1, h.2)
voice_call-VoiceOk gate_up v h = gate_on-VoiceOk v h
voice_call-VoiceOk gate_down v h = if_both VoiceOk (is_off v.stage) h h
voice_call-VoiceOk (arp_note slot note) v h = set_arp_note-VoiceOk slot note v h
voice_call-VoiceOk (adsr a d s r) v h =
    let low = clamped-le 0 100 s (omega arith) in
    (h.0, h.1, (h.2.0, sustain_le (clamped 0 100 s) low))
