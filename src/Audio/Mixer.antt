-- ===== src/Audio/Mixer.antt =====
-- v2/core/kernel/kernel_audio.c: draining the queue, the master volume and the voices that sound.
use rave_os.Prelude.{
  replicate, ℕ, zero, suc, ◌+◌, ◌*◌, ◌/◌, ◌%◌, Bool, Option, some, List, [], ◌∷◌, ◌==◌,
  if◌then◌else◌, map, ℤ, pos, negsuc, sub_ℕ,
}
use rave_os.Synth.Voice.{Voice, clamped, is_off, num_voices}
use rave_os.Synth.Render.{◌>>=◌, byte_of, render_half}
use rave_os.Audio.Commands.{Command, Voices, apply}
use rave_os.Audio.Ring.{Ring, queue_len, try_enqueue, taken, drained}
use rave_os.Synth.Render

-- The variables of kernel_audio.c and the synthesiser.
pub record Audio : Type 0 where
  pub voices : Voices
  pub ring : Ring
  pub active_mask : ℕ
  pub volume : ℕ

-- `kernel_audio_init`
unfoldable pub init : Audio → Audio
unfolding Render.init
init a = record a {
  voices = record { synth = Render.init a.voices.synth.filter; owners = replicate num_voices 0 };
  ring = record a.ring { head = 0; tail = 0 };
}

-- The commands that are taken from the queue, applied in order.
unfoldable pub apply_all : List Command → Voices → Option Voices
unfolding apply
apply_all [] a = some a
apply_all (c ∷ cs) a = apply c a >>= apply_all cs

-- `/ 100` on a C `int` rounds towards 0.
abbrev pub percent_of : ℕ → ℤ → ℤ
percent_of volume (pos n) = pos (n * volume / 100)
percent_of volume (negsuc n) = sub_ℕ 0 (suc n * volume / 100)

-- One byte at the master volume.
unfoldable pub scaled : ℕ → ℕ → ℕ
scaled volume b = byte_of (percent_of volume (sub_ℕ b 128))

unfoldable pub at_volume : ℕ → List ℕ → List ℕ
unfolding scaled
at_volume volume buf = if volume == 100 then buf else map (scaled volume) buf

-- The mask with a bit for each voice that sounds, voice 0 the lowest.
unfoldable pub mask_of : List Voice → ℕ
mask_of [] = 0
mask_of (v ∷ vs) = (if is_off v.stage then 0 else 1) + 2 * mask_of vs

-- `kernel_audio_drain_and_render`
unfoldable pub drain_and_render : ℕ → Audio → Option (List ℕ × Audio)
unfolding taken apply_all render_half at_volume mask_of
drain_and_render len a = taken queue_len a.ring >>= λ cs. apply_all cs a.voices >>= λ vs.
    render_half len vs.synth >>= λ r. some (
      at_volume a.volume r.0,
      record a {
        voices = record vs { synth = r.1 };
        ring = drained a.ring;
        active_mask = mask_of r.1.voices;
      },
    )

-- The loop of `kernel_audio_active_voice_count`; each round uses one unit of fuel.
unfoldable pub count_bits : ℕ → ℕ → ℕ
count_bits zero mask = 0
count_bits (suc fuel) mask =
    let rest = count_bits fuel (mask / 2) in if mask == 0 then 0 else mask % 2 + rest

unfoldable pub active_voice_count : Audio → ℕ
unfolding count_bits
active_voice_count a = count_bits num_voices a.active_mask

-- `kernel_audio_set_master_volume`
unfoldable pub set_master_volume : ℤ → Audio → Audio
set_master_volume percent a = record a { volume = clamped 0 100 percent }

-- A task's call that queues a command, with whether it was queued.
unfoldable pub enqueue : Command → Audio → Bool × Audio
unfolding try_enqueue
enqueue cmd a = let r = try_enqueue cmd a.ring in (r.0, record a { ring = r.1 })
