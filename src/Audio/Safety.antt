-- ===== src/Audio/Safety.antt =====
-- v2/core/kernel/kernel_audio.c: the synthesiser under its commands.
use rave_os.Prelude.{
  ℕ, suc, ◌*◌, ◌/◌, ◌<◌, false, Option, none, some, List, [], ◌∷◌, ◌==◌, get_elem?, length,
  length-set, map, Every, ◌≡◌, refl, sym, ap, ◌∙◌, if_both, if_cases, ltb, arith, ℤ, pos, negsuc,
  sub_ℕ,
}
use rave_os.Audio.Commands.{
  Command, note_on, note_off, release_owner, configure_voice, configure_filter, trigger_arp,
  configure_osc, pair_ring, Voices, at_one, owned, begin_note, end_note, start_arp, release_from,
  apply,
}
use rave_os.Audio.Queue.{Holds, taken-Holds}
use rave_os.Synth.Voice.{
  Voice, env_full, within, clamped, set_waveform, set_duty, set_ona, set_filter_route, set_arp_note,
  set_arp_rate, set_adsr, gate_off,
}
use rave_os.Synth.Render.{
  waveform, duty, ona, ring_partner, filter_route, arp_count, arp_rate, no_ring_partner, gate_up,
  gate_down, arp_note, adsr, voice_call, render_half, perform,
}
use rave_os.Synth.Setters.{
  Yields, VoiceOk, within-bounds, voice_call-VoiceOk, clamped-le, sustain_le,
}
use rave_os.Synth.Safety.{bind-Yields, get_elem?-Yields, VoicesOk-set}
use rave_os.Synth.Histories.{clamped-lt, SynthOk, Rendered, render_half-Rendered, byte_of-lt}
use rave_os.Audio.Mixer.{percent_of, Audio, apply_all, at_volume, scaled, drain_and_render}

-- The synthesiser is in order and each voice has an owner's slot.
abbrev pub VoicesState : Voices → Type 0
VoicesState a = SynthOk a.synth × (length a.owners ≡ 8)

-- A change that keeps a voice in order.
abbrev KeepsVoice : (Voice → Option Voice) → Type 0
KeepsVoice f = (v : Voice) → VoiceOk v → Yields VoiceOk (f v)

at_one-VoicesState :
    (z : ℤ) (f : Voice → Option Voice) (a : Voices)
    → KeepsVoice f
    → VoicesState a
    → Yields VoicesState (at_one (within 0 7 z) f a)
unfolding at_one
at_one-VoicesState z f a keeps h =
    go (within 0 7 z) (λ n e. let b = within-bounds 0 7 n z e in omega arith)
  where
    go : (o : Option ℕ) → ((n : ℕ) → o ≡ some n → n < 8) → Yields VoicesState (at_one o f a)
    go none lt = h
    go (some n) lt =
        bind-Yields VoiceOk VoicesState (get_elem? a.synth.voices n) _
          (get_elem?-Yields VoiceOk a.synth.voices n h.0.0.1 (omega (arith, lt n refl, h.0.0.0)))
          (λ v k.
            bind-Yields VoiceOk VoicesState (f v) _ (keeps v k)
              (λ v' k'. ((VoicesOk-set a.synth.voices n v' k' h.0.0, h.0.1), h.1)))

owned-VoicesState :
    (o : Option ℕ) (owner : ℕ) (a : Voices)
    → ((n : ℕ) → o ≡ some n → n < 8)
    → VoicesState a
    → Yields VoicesState (owned o owner a)
owned-VoicesState none owner a lt h = h
owned-VoicesState (some n) owner a lt h =
    if_cases (Yields VoicesState) (ltb n (length a.owners))
      (λ inside. (h.0, length-set a.owners n owner ∙ h.1))
      (λ outside. let few = lt n refl in let size = h.1 in absurd (ground arith))

-- A voice number that was let through has an owner's slot.
owned_voice-VoicesState :
    (voice : ℤ) (owner : ℕ) (a : Voices)
    → VoicesState a
    → Yields VoicesState (owned (within 0 7 voice) owner a)
owned_voice-VoicesState voice owner a h =
    owned-VoicesState (within 0 7 voice) owner a
      (λ n e. let b = within-bounds 0 7 n voice e in omega arith) h

begin_note-keeps : (n volume : ℤ) → KeepsVoice (begin_note n volume)
unfolding begin_note voice_call
begin_note-keeps n volume v h =
    bind-Yields VoiceOk VoiceOk (set_ona n v) _ (voice_call-VoiceOk (ona n) v h) (λ v' k.
      let loud = sustain_le (clamped 0 100 volume) (clamped-le 0 100 volume (omega arith)) in
      voice_call-VoiceOk gate_up
        (record v' { sustain_level = clamped 0 100 volume * env_full / 100 * 256 })
        (k.0, k.1, (k.2.0, loud)))

end_note-keeps : KeepsVoice end_note
unfolding end_note voice_call
end_note-keeps v h =
    bind-Yields VoiceOk VoiceOk (gate_off v) (λ v'. some (record v' { arp_active = false }))
      (voice_call-VoiceOk gate_down v h)
      (λ v' k. ((k.0.0, k.0.1, (λ e. absurd (cc)), k.0.3), k.1, k.2))

start_arp-keeps : (n0 n1 n2 n3 count rate_ms : ℤ) → KeepsVoice (start_arp n0 n1 n2 n3 count rate_ms)
unfolding start_arp voice_call
start_arp-keeps n0 n1 n2 n3 count rate_ms v h =
    bind-Yields VoiceOk VoiceOk (set_arp_note (pos 0) n0 v) _
      (voice_call-VoiceOk (arp_note (pos 0) n0) v h)
      (λ v0 k0.
        bind-Yields VoiceOk VoiceOk (set_arp_note (pos 1) n1 v0) _
          (voice_call-VoiceOk (arp_note (pos 1) n1) v0 k0)
          (λ v1 k1.
            bind-Yields VoiceOk VoiceOk (set_arp_note (pos 2) n2 v1) _
              (voice_call-VoiceOk (arp_note (pos 2) n2) v1 k1)
              (λ v2 k2.
                bind-Yields VoiceOk VoiceOk (set_arp_note (pos 3) n3 v2) _
                  (voice_call-VoiceOk (arp_note (pos 3) n3) v2 k2)
                  (λ v3 k3.
                    bind-Yields VoiceOk VoiceOk (set_arp_rate rate_ms v3) _
                      (voice_call-VoiceOk (arp_rate rate_ms) v3 k3)
                      (λ v4 k4.
                        voice_call-VoiceOk (arp_count count)
                          (record v4 { arp_step = 0; arp_step_counter = 0 })
                          ((k4.0.0, k4.0.1, k4.0.2, omega arith), k4.1, k4.2))))))

abbrev Kept : List Voice → List ℕ → List Voice × List ℕ → Type 0
Kept vs os r = (length r.0 ≡ length vs) × Every VoiceOk r.0 × (length r.1 ≡ length os)

release_from-VoiceOk :
    (owner : ℕ) (vs : List Voice) (os : List ℕ)
    → length os ≡ length vs
    → Every VoiceOk vs
    → Yields (Kept vs os) (release_from owner vs os)
unfolding release_from voice_call
release_from-VoiceOk owner [] os e h = (refl, tt, refl)
release_from-VoiceOk owner (v ∷ vs) [] e h = absurd (omega arith)
release_from-VoiceOk owner (v ∷ vs) (o ∷ os) e h =
    bind-Yields (Kept vs os) (Kept (v ∷ vs) (o ∷ os)) (release_from owner vs os) _
      (release_from-VoiceOk owner vs os (omega arith) h.1)
      (λ rest k.
        if_both (Yields (Kept (v ∷ vs) (o ∷ os))) (o == owner)
          (bind-Yields VoiceOk (Kept (v ∷ vs) (o ∷ os)) (gate_off v)
            (λ v'. some (v' ∷ rest.0, 0 ∷ rest.1)) (voice_call-VoiceOk gate_down v h.0)
            (λ v' k'. (ap suc k.0, (k', k.1), ap suc k.2)))
          (ap suc k.0, (h.0, k.1), ap suc k.2))

apply-VoicesState : (c : Command) (a : Voices) → VoicesState a → Yields VoicesState (apply c a)
unfolding apply voice_call perform
apply-VoicesState (note_on owner voice n volume) a h =
    bind-Yields VoicesState VoicesState (at_one (within 0 7 voice) (begin_note n volume) a) _
      (at_one-VoicesState voice (begin_note n volume) a (begin_note-keeps n volume) h)
      (λ a' k. owned_voice-VoicesState voice owner a' k)
apply-VoicesState (note_off voice) a h =
    bind-Yields VoicesState VoicesState (at_one (within 0 7 voice) end_note a) _
      (at_one-VoicesState voice end_note a end_note-keeps h)
      (λ a' k. owned_voice-VoicesState voice 0 a' k)
apply-VoicesState (trigger_arp voice n0 n1 n2 n3 count rate_ms) a h =
    at_one-VoicesState voice _ a (start_arp-keeps n0 n1 n2 n3 count rate_ms) h
apply-VoicesState (configure_voice voice route a_ms d_ms s r_ms) a h =
    at_one-VoicesState voice _ a
      (λ v k.
        bind-Yields VoiceOk VoiceOk (set_filter_route route v) (set_adsr a_ms d_ms s r_ms)
          (voice_call-VoiceOk (filter_route route) v k)
          (λ v' k'. voice_call-VoiceOk (adsr a_ms d_ms s r_ms) v' k'))
      h
apply-VoicesState (configure_filter c r m) a h =
    let settings = h.0.1 in
    ((h.0.0, (clamped-lt 255 c, clamped-lt 15 r, settings.2, settings.3, settings.4)), h.1)
apply-VoicesState (configure_osc voice wave duty_percent) a h =
    at_one-VoicesState voice _ a
      (λ v k.
        bind-Yields VoiceOk VoiceOk (set_waveform wave v) (set_duty duty_percent)
          (voice_call-VoiceOk (waveform wave) v k)
          (λ v' k'. voice_call-VoiceOk (duty duty_percent) v' k'))
      h
apply-VoicesState (pair_ring voice (pos partner)) a h =
    at_one-VoicesState voice _ a (λ v k. voice_call-VoiceOk (ring_partner (pos partner)) v k) h
apply-VoicesState (pair_ring voice (negsuc partner)) a h =
    at_one-VoicesState voice _ a (λ v k. voice_call-VoiceOk no_ring_partner v k) h
apply-VoicesState (release_owner owner) a h =
    bind-Yields (Kept a.synth.voices a.owners) VoicesState
      (release_from owner a.synth.voices a.owners) _
      (release_from-VoiceOk owner a.synth.voices a.owners (h.1 ∙ sym h.0.0.0) h.0.0.1)
      (λ r k. (((k.0 ∙ h.0.0.0, k.1), h.0.1), k.2 ∙ h.1))

pub apply_all-VoicesState :
    (cs : List Command) (a : Voices) → VoicesState a → Yields VoicesState (apply_all cs a)
unfolding apply_all
apply_all-VoicesState [] a h = h
apply_all-VoicesState (c ∷ cs) a h =
    bind-Yields VoicesState VoicesState (apply c a) (apply_all cs) (apply-VoicesState c a h)
      (λ a' k. apply_all-VoicesState cs a' k)

abbrev pub AreBytes : List ℕ → Type 0
AreBytes bs = Every (λ b. b < 256) bs

map-AreBytes : (volume : ℕ) (bs : List ℕ) → AreBytes (map (scaled volume) bs)
unfolding scaled
map-AreBytes volume [] = tt
map-AreBytes volume (b ∷ bs) =
    (byte_of-lt (percent_of volume (sub_ℕ b 128)), map-AreBytes volume bs)

map-length : (volume : ℕ) (bs : List ℕ) → length (map (scaled volume) bs) ≡ length bs
map-length volume [] = refl
map-length volume (b ∷ bs) = ap suc (map-length volume bs)

-- `len` bytes, the synthesiser in order with a slot for each voice's owner, and no command waiting.
abbrev pub IsFrame : ℕ → List ℕ × Audio → Type 0
IsFrame len r = (length r.0 ≡ len) × AreBytes r.0 × VoicesState r.1.voices × Holds r.1.ring []

-- If the ring stands for a list of waiting commands, the synthesiser is in order and each voice has an
-- owner's slot, then the audio callback takes and applies these commands, whatever they are, and fills
-- its buffer with exactly as many samples as it is asked for, each a byte at every master volume. It
-- does so without a read or a write outside the ring, the voices, the owners, the tables, the
-- arpeggios and the filter's history, and leaves the synthesiser in order and the ring empty.
pub drain_and_render-IsFrame :
    (len : ℕ) (a : Audio) (l : List Command)
    → Holds a.ring l
    → VoicesState a.voices
    → Yields (IsFrame len) (drain_and_render len a)
unfolding drain_and_render at_volume
drain_and_render-IsFrame len a l ring h =
    let drain = taken-Holds a.ring l ring in
    rw drain.0 (
      bind-Yields VoicesState (IsFrame len) (apply_all l a.voices) _
        (apply_all-VoicesState l a.voices h)
        (λ vs k.
          bind-Yields (Rendered len) (IsFrame len) (render_half len vs.synth) _
            (render_half-Rendered len vs.synth k.0)
            (λ r k'. (
              if_both (λ (bs : List ℕ). length bs ≡ len) (a.volume == 100) k'.0
                  (map-length a.volume r.0 ∙ k'.0),
              if_both AreBytes (a.volume == 100) k'.1 (map-AreBytes a.volume r.0),
              (k'.2, k.1),
              drain.1,
            ))))
