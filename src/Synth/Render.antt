-- ===== src/Synth/Render.antt =====
-- kernel/audio/synth.c: the oscillators, the mixer and the calls.
use rave_os.Prelude.{
  ℕ, zero, suc, ◌+◌, ◌-◌, ◌*◌, ◌/◌, ◌%◌, ◌^◌, Bool, Option, none, some, List, [], ◌∷◌, ◌==◌, leb,
  ltb, not, if◌then◌else◌, get_elem?, set, ℤ, pos, negsuc, sub_ℕ, ◌+ℤ◌, ◌*ℤ◌, pos_part,
}
use Prim.Native.Nat.{bit_xor}
use rave_os.Synth.Voice.{
  Voice, Waveform, pulse, saw, triangle, noise, within, fresh_voice, num_voices, increment_of,
  tuned, set_waveform, set_duty, set_ona, set_ring_partner, clear_ring_partner, set_filter_route,
  set_arp_note, arp_on, arp_off, set_arp_rate, set_adsr, gate_on, gate_off, advance_sample,
}
use rave_os.Synth.Filter.{
  Filter, reset, set_cutoff, set_resonance, set_mode, shift_right, limited, process_sample,
}

-- `synth_voices` and `synth_filter`
pub record Synth : Type 0 where
  pub voices : List Voice
  pub filter : Filter

infixl 5 ◌>>=◌
abbrev pub ◌>>=◌ : {A B : Type 0} → Option A → (A → Option B) → Option B
none >>= f = none
some a >>= f = f a

-- `noise_advance`
unfoldable pub noise_advance : ℕ → ℕ
noise_advance lfsr = let v = lfsr % 65536 in if v % 2 == 1 then bit_xor (v / 2) 0xB400 else v / 2

-- The top bit of the position within the period.
abbrev pub top_bit : ℕ → ℕ
top_bit accum = accum / 2 ^ 24 % 256 / 128

-- The fold of the triangle, with the ring partner's phase if there is one.
abbrev pub fold_bit : ℕ → Option ℕ → ℕ
fold_bit accum none = top_bit accum
fold_bit accum (some partner) = (top_bit accum + top_bit partner) % 2

-- `synth_osc_sample`: the sample and the noise register.
unfoldable pub osc_sample : Waveform → ℕ → ℕ → ℕ → Bool → Option ℕ → ℤ × ℕ
unfolding noise_advance
osc_sample wave accum duty lfsr wrapped ring =
    let pos8 = accum / 2 ^ 24 % 256 in
    elim wave [
      | saw ↦ (sub_ℕ pos8 128, lfsr)
      | triangle ↦
          let lower7 = pos8 % 128 in
          let tri_pos = if fold_bit accum ring == 1 then 127 - lower7 else lower7 in
          (sub_ℕ (tri_pos * 2) 128, lfsr)
      | pulse ↦ (if ltb pos8 duty then pos 127 else negsuc 127, lfsr)
      | noise ↦
          let lfsr' = if wrapped then noise_advance lfsr else lfsr in
          (sub_ℕ (lfsr' % 256) 128, lfsr')
    ]

-- The next slot of an arpeggio.
abbrev pub next_step : Voice → Option ℕ
next_step v = if v.arp_count == 0 then none else some ((v.arp_step + 1) % v.arp_count)

abbrev pub retuned : Voice → ℕ → Option Voice
retuned v step = get_elem? v.arp_notes step >>= λ note.
    tuned (increment_of note) (record v { arp_step_counter = 0; arp_step = step })

unfoldable pub step_arp : Voice → Option Voice
step_arp v =
    if not v.arp_active
    then some v
    else if leb v.arp_step_rate (v.arp_step_counter + 1)
    then next_step v >>= retuned v
    else some (record v { arp_step_counter = v.arp_step_counter + 1 })

-- The phase of the ring partner, if there is one.
abbrev pub ring_phase : List Voice → Option ℕ → Option (Option ℕ)
ring_phase voices none = some none
ring_phase voices (some p) = get_elem? voices p >>= λ v. some (some v.phase_accum)

-- One voice's sample, with its ring partner's phase: what it adds to the sum, and the voice.
unfoldable pub voice_sample : Voice → Option ℕ → Option (ℤ × Voice)
unfolding osc_sample advance_sample step_arp ◌*ℤ◌
voice_sample v ring =
    let accum = (v.phase_accum + v.phase_increment) % 2 ^ 32 in
    let osc =
      osc_sample v.waveform v.phase_accum v.duty_threshold v.noise_lfsr (ltb accum v.phase_accum)
        ring in
    let v' = advance_sample (record v { noise_lfsr = osc.1 }) in
    step_arp (record v' { phase_accum = accum }) >>= λ v''.
    some (shift_right 15 (osc.0 *ℤ pos (v'.level / 256)), v'')

-- The sums of the routed and of the other voices.
pub record Mix : Type 0 where
  pub voices : List Voice
  pub filtered_sum : ℤ
  pub bypass_sum : ℤ

unfoldable pub mix_voice : ℕ → Mix → Option Mix
unfolding voice_sample ◌+ℤ◌
mix_voice n m = get_elem? m.voices n >>= λ v. ring_phase m.voices v.ring_partner >>= λ ring.
    voice_sample v ring >>= λ r. some (
      if v.filter_route
      then record m { voices = set m.voices n r.1; filtered_sum = m.filtered_sum +ℤ r.0 }
      else record m { voices = set m.voices n r.1; bypass_sum = m.bypass_sum +ℤ r.0 })

-- `rounds` voices from voice `n` on.
unfoldable pub mix_from : ℕ → ℕ → Mix → Option Mix
unfolding mix_voice
mix_from zero n m = some m
mix_from (suc rounds) n m = mix_voice n m >>= mix_from rounds (n + 1)

-- The byte of a sum, clamped and biased.
abbrev pub byte_of : ℤ → ℕ
byte_of sum = pos_part (limited (negsuc 127) (pos 127) sum +ℤ pos 128)

-- One sample of `synth_render_half`.
unfoldable pub render_sample : Synth → Option (ℕ × Synth)
unfolding mix_from process_sample ◌+ℤ◌
render_sample sy =
    mix_from num_voices 0 (record { voices = sy.voices; filtered_sum = pos 0; bypass_sum = pos 0 })
    >>= λ m. process_sample m.filtered_sum sy.filter >>= λ r.
        some (byte_of (r.0 +ℤ m.bypass_sum), record { voices = m.voices; filter = r.1 })

unfoldable pub render_half : ℕ → Synth → Option (List ℕ × Synth)
unfolding render_sample
render_half zero sy = some ([], sy)
render_half (suc len) sy =
    render_sample sy >>= λ r. render_half len r.1 >>= λ rest. some (r.0 ∷ rest.0, rest.1)

-- `synth_init`
unfoldable pub fresh_from : ℕ → ℕ → List Voice
fresh_from zero v = []
fresh_from (suc n) v = fresh_voice v ∷ fresh_from n (v + 1)

unfoldable pub init : Filter → Synth
unfolding fresh_from
init st = record { voices = fresh_from num_voices 0; filter = reset st }

-- The calls that synth.h offers; `on_voice` are those that set or gate one voice.
pub data VoiceCall : Type 0 where
  waveform duty ona ring_partner filter_route arp_count arp_rate : ℤ → VoiceCall
  no_ring_partner no_arp gate_up gate_down : VoiceCall
  arp_note : ℤ → ℤ → VoiceCall
  adsr : ℤ → ℤ → ℤ → ℤ → VoiceCall

pub data Call : Type 0 where
  initialise : Call
  on_voice : ℤ → VoiceCall → Call
  cutoff resonance mode : ℤ → Call
  render : ℕ → Call

unfoldable pub voice_call : VoiceCall → Voice → Option Voice
unfolding set_waveform set_duty set_ona set_ring_partner set_filter_route arp_on set_arp_rate
    clear_ring_partner arp_off gate_on gate_off set_arp_note set_adsr
voice_call (waveform n) v = set_waveform n v
voice_call (duty n) v = set_duty n v
voice_call (ona n) v = set_ona n v
voice_call (ring_partner n) v = set_ring_partner n v
voice_call (filter_route n) v = set_filter_route n v
voice_call (arp_count n) v = arp_on n v
voice_call (arp_rate n) v = set_arp_rate n v
voice_call no_ring_partner v = clear_ring_partner v
voice_call no_arp v = arp_off v
voice_call gate_up v = gate_on v
voice_call gate_down v = gate_off v
voice_call (arp_note slot note) v = set_arp_note slot note v
voice_call (adsr a d s r) v = set_adsr a d s r v

-- `clamp_voice`, then the call on that voice.
unfoldable pub at_voice : Option ℕ → VoiceCall → Synth → Option Synth
unfolding voice_call
at_voice none c sy = some sy
at_voice (some n) c sy = get_elem? sy.voices n >>= λ v.
    voice_call c v >>= λ v'. some (record sy { voices = set sy.voices n v' })

unfoldable pub perform : Call → Synth → Option Synth
unfolding init at_voice render_half set_cutoff set_resonance set_mode
perform initialise sy = some (init sy.filter)
perform (on_voice voice c) sy = at_voice (within 0 7 voice) c sy
perform (cutoff n) sy = some (record sy { filter = set_cutoff n sy.filter })
perform (resonance n) sy = some (record sy { filter = set_resonance n sy.filter })
perform (mode n) sy = some (record sy { filter = set_mode n sy.filter })
perform (render len) sy = render_half len sy >>= λ r. some r.1

unfoldable pub perform_all : List Call → Synth → Option Synth
perform_all [] sy = some sy
perform_all (c ∷ cs) sy = perform c sy >>= perform_all cs
