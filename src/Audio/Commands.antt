-- ===== src/Audio/Commands.antt =====
-- v2/core/kernel/kernel_audio.c: the commands and what `apply` does with each. The synthesiser is
-- that of kernel/audio/synth.c, of which v2/core/audio/synth.c is a copy without `synth_arp_off`.
-- `none` is a crash of the synthesiser or an access outside an array. A task is a number and NULL is 0.
use rave_os.Prelude.{
  ltb, length, ℕ, ◌*◌, ◌/◌, false, Option, none, some, List, [], ◌∷◌, ◌==◌, if◌then◌else◌,
  get_elem?, set, ℤ, pos, negsuc,
}
use rave_os.Synth.Voice.{
  Voice, env_full, within, clamped, set_waveform, set_duty, set_ona, set_ring_partner,
  clear_ring_partner, set_filter_route, set_arp_note, arp_on, set_arp_rate, set_adsr, gate_on,
  gate_off,
}
use rave_os.Synth.Filter.{set_cutoff, set_resonance, set_mode}
use rave_os.Synth.Render.{Synth, ◌>>=◌}

-- `struct kernel_audio_command`, with the fields that each type uses.
pub data Command : Type 0 where
  note_on : (owner : ℕ) (voice ona volume : ℤ) → Command
  note_off : (voice : ℤ) → Command
  release_owner : (owner : ℕ) → Command
  configure_voice : (voice filter_route attack_ms decay_ms sustain_percent release_ms : ℤ) → Command
  configure_filter : (cutoff resonance filter_mode : ℤ) → Command
  trigger_arp : (voice note_0 note_1 note_2 note_3 count rate_ms : ℤ) → Command
  configure_osc : (voice waveform duty_percent : ℤ) → Command
  pair_ring : (voice partner : ℤ) → Command

-- The synthesiser and `g_voice_owner`.
pub record Voices : Type 0 where
  pub synth : Synth
  pub owners : List ℕ

-- A change of one voice, in range.
unfoldable pub at_one : Option ℕ → (Voice → Option Voice) → Voices → Option Voices
at_one none f a = some a
at_one (some n) f a = get_elem? a.synth.voices n >>= λ v.
    f v >>= λ v'. some (record a { synth = record a.synth { voices = set a.synth.voices n v' } })

-- The owner of a voice in range; `none` is a write outside `g_voice_owner`.
abbrev pub owned : Option ℕ → ℕ → Voices → Option Voices
owned none owner a = some a
owned (some n) owner a =
    if ltb n (length a.owners) then some (record a { owners = set a.owners n owner }) else none

-- The voice of a note that begins.
unfoldable pub begin_note : ℤ → ℤ → Voice → Option Voice
begin_note ona volume v = set_ona ona v >>= λ v'.
    gate_on (record v' { sustain_level = clamped 0 100 volume * env_full / 100 * 256 })

-- The voice of a note that ends.
unfoldable pub end_note : Voice → Option Voice
end_note v = gate_off v >>= λ v'. some (record v' { arp_active = false })

-- The voice of an arpeggio that starts.
unfoldable pub start_arp : ℤ → ℤ → ℤ → ℤ → ℤ → ℤ → Voice → Option Voice
start_arp n0 n1 n2 n3 count rate_ms v = set_arp_note (pos 0) n0 v >>= λ v0.
    set_arp_note (pos 1) n1 v0 >>= λ v1. set_arp_note (pos 2) n2 v1 >>= λ v2.
    set_arp_note (pos 3) n3 v2 >>= λ v3. set_arp_rate rate_ms v3 >>= λ v4.
    arp_on count (record v4 { arp_step = 0; arp_step_counter = 0 })

-- The loop of AUDIO_CMD_RELEASE_OWNER over the voices and their owners.
unfoldable pub release_from : ℕ → List Voice → List ℕ → Option (List Voice × List ℕ)
release_from owner [] owners = some ([], owners)
release_from owner (v ∷ vs) [] = none
release_from owner (v ∷ vs) (o ∷ os) = release_from owner vs os >>= λ rest.
    if o == owner
    then (gate_off v >>= λ v'. some (v' ∷ rest.0, 0 ∷ rest.1))
    else some (v ∷ rest.0, o ∷ rest.1)

-- `apply`
unfoldable pub apply : Command → Voices → Option Voices
unfolding at_one begin_note end_note start_arp release_from
apply (note_on owner voice ona volume) a =
    at_one (within 0 7 voice) (begin_note ona volume) a >>= owned (within 0 7 voice) owner
apply (note_off voice) a = at_one (within 0 7 voice) end_note a >>= owned (within 0 7 voice) 0
apply (trigger_arp voice n0 n1 n2 n3 count rate_ms) a =
    at_one (within 0 7 voice) (start_arp n0 n1 n2 n3 count rate_ms) a
apply (configure_voice voice route attack_ms decay_ms sustain_percent release_ms) a =
    at_one (within 0 7 voice)
      (λ v. set_filter_route route v >>= set_adsr attack_ms decay_ms sustain_percent release_ms) a
apply (configure_filter cutoff resonance filter_mode) a =
    let filter =
      set_mode filter_mode (set_resonance resonance (set_cutoff cutoff a.synth.filter)) in
    some (record a { synth = record a.synth { filter = filter } })
apply (configure_osc voice wave duty_percent) a =
    at_one (within 0 7 voice) (λ v. set_waveform wave v >>= set_duty duty_percent) a
apply (pair_ring voice (pos partner)) a =
    at_one (within 0 7 voice) (set_ring_partner (pos partner)) a
apply (pair_ring voice (negsuc partner)) a = at_one (within 0 7 voice) clear_ring_partner a
apply (release_owner owner) a = release_from owner a.synth.voices a.owners >>= λ r.
    some (record { synth = record a.synth { voices = r.0 }; owners = r.1 })
