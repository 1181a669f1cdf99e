-- ===== src/Synth/Tests.antt =====
-- A short run of the synthesiser.
use rave_os.Prelude.{refl, ◌/◌, ◌*◌, ◌≤◌, List, [], ◌∷◌, ◌≡◌, arith, pos, negsuc}
use rave_os.Synth.Voice.{Voice, env_off, sustain, full_q8, calc_rate, gate_off, fresh_voice}
use rave_os.Synth.Filter.{fresh_filter}
use rave_os.Synth.Render.{
  Synth, init, Call, on_voice, cutoff, render, ona, gate_up, arp_count, arp_note, render_half,
}
use rave_os.Synth.Setters.{Yields}
use rave_os.Synth.Histories.{SynthOk, Rendered, init-SynthOk, render_half-Rendered}
use rave_os.Synth.Envelope.{rate_for, advance_times, advance_times-gate_off, calc_rate-bounds}

abbrev started_synth : Synth
started_synth = init fresh_filter

started_synth-SynthOk : SynthOk started_synth
started_synth-SynthOk = init-SynthOk fresh_filter (omega arith, omega arith, refl)

abbrev first_calls : List Call
first_calls =
    on_voice (pos 0) (ona (pos 49))
    ∷ on_voice (pos 9) gate_up
    ∷ on_voice (pos 0) gate_up
    ∷ on_voice (pos 1) (arp_note (pos 2) (pos 100))
    ∷ on_voice (pos 1) (arp_count (pos 3))
    ∷ cutoff (negsuc 4)
    ∷ render 3
    ∷ []

render_half-Rendered_example : Yields (Rendered 4) (render_half 4 started_synth)
render_half-Rendered_example = render_half-Rendered 4 started_synth started_synth-SynthOk

abbrev held_voice : Voice
held_voice = record (fresh_voice 0) { stage = sustain; level = 1000; release_rate = 300 }

advance_times-gate_off_example :
    Yields
      (λ w. ((advance_times 4 w).stage ≡ env_off) × ((advance_times 4 w).level ≡ 0))
      (gate_off held_voice)
advance_times-gate_off_example = advance_times-gate_off 4 held_voice (omega arith) (omega arith)

calc_rate-bounds_example :
    (calc_rate (pos 250) ≡ rate_for (250 * 22050 / 1000))
    × (1 ≤ calc_rate (pos 250))
    × (calc_rate (pos 250) ≤ full_q8)
calc_rate-bounds_example = calc_rate-bounds (pos 250)
