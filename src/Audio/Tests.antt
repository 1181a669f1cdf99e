-- ===== src/Audio/Tests.antt =====
-- A short run of the audio commands.
use rave_os.Prelude.{some, ◌-◌, ◌^◌, true, [], ◌∷◌, ltb, set, replicate, ◌≡◌, refl, arith, pos}
use rave_os.Audio.Commands.{Command, note_on, note_off, release_owner}
use rave_os.Audio.Ring.{Ring, try_enqueue, taken, drained, enqueue_retrying}
use rave_os.Synth.Filter.{fresh_filter}
use rave_os.Synth.Histories.{init-SynthOk}
use rave_os.Synth.Setters.{Yields}
use rave_os.Synth.Render
use rave_os.Audio.Mixer.{Audio, active_voice_count, drain_and_render}
use rave_os.Audio.Queue.{Holds, queued, try_enqueue-Holds, taken-Holds, enqueue_retrying-Holds}
use rave_os.Audio.Safety.{VoicesState, IsFrame, drain_and_render-IsFrame}
use rave_os.Audio.Active.{sounding, drain_and_render-sounding}

abbrev begin : Command
begin = note_on 5 (pos 0) (pos 49) (pos 80)

-- The tail counter is about to wrap around, with one command waiting.
abbrev near_wrap : Ring
near_wrap = record {
  buf = set (replicate 16 (note_off (pos 0))) 15 begin;
  head = 2 ^ 32 - 1;
  tail = 0;
}

near_wrap-Holds : Holds near_wrap (begin ∷ [])
near_wrap-Holds = (refl, omega arith, omega arith, omega arith, (refl, tt))

try_enqueue-Holds_example :
    ((try_enqueue (release_owner 5) near_wrap).0 ≡ ltb 1 16)
    × Holds (try_enqueue (release_owner 5) near_wrap).1 (queued (release_owner 5) (begin ∷ []))
try_enqueue-Holds_example =
    try_enqueue-Holds (release_owner 5) near_wrap (begin ∷ []) near_wrap-Holds

taken-Holds_example : (taken 16 near_wrap ≡ some (begin ∷ [])) × Holds (drained near_wrap) []
taken-Holds_example = taken-Holds near_wrap (begin ∷ []) near_wrap-Holds

abbrev one_note : Audio
one_note = record {
  voices = record { synth = Render.init fresh_filter; owners = replicate 8 0 };
  ring = near_wrap;
  active_mask = 0;
  volume = 50;
}

one_note-VoicesState : VoicesState one_note.voices
one_note-VoicesState = (init-SynthOk fresh_filter (omega arith, omega arith, refl), refl)

drain_and_render-IsFrame_example : Yields (IsFrame 2) (drain_and_render 2 one_note)
drain_and_render-IsFrame_example =
    drain_and_render-IsFrame 2 one_note (begin ∷ []) near_wrap-Holds one_note-VoicesState

drain_and_render-sounding_example :
    Yields
      (λ r. active_voice_count r.1 ≡ sounding r.1.voices.synth.voices)
      (drain_and_render 2 one_note)
drain_and_render-sounding_example =
    drain_and_render-sounding 2 one_note (begin ∷ []) near_wrap-Holds one_note-VoicesState

enqueue_retrying-Holds_example :
    (let r = enqueue_retrying (release_owner 5) 3 drained near_wrap in
      (r.0 ≡ true) × Holds r.1 (begin ∷ release_owner 5 ∷ []))
enqueue_retrying-Holds_example =
    enqueue_retrying-Holds (release_owner 5) 2 near_wrap (begin ∷ []) near_wrap-Holds
