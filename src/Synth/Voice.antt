-- ===== src/Synth/Voice.antt =====
-- kernel/audio/synth.c: the voices and their setters. `none` is a read outside a table or a division
-- by zero, which the C code would make unchecked. The envelope's fields are never negative.
use rave_os.Prelude.{
  length, ℕ, zero, suc, ◌+◌, ◌-◌, ◌*◌, ◌/◌, ◌%◌, ◌^◌, Bool, true, false, Option, none, some, List,
  [], ◌∷◌, ◌==◌, ◌&&◌, leb, ltb, not, if◌then◌else◌, get_elem?, set, replicate, ℤ, pos, negsuc,
}
use rave_os.Synth.Tables.{ona_phase_increment}

-- SYNTH_NUM_VOICES, SYNTH_SAMPLE_RATE, SYNTH_ARP_NOTES, and SYNTH_ENV_FULL << 8
abbrev pub num_voices : ℕ
num_voices = 8

abbrev pub sample_rate : ℕ
sample_rate = 22050

abbrev pub arp_slots : ℕ
arp_slots = 4

abbrev pub env_full : ℕ
env_full = 32768

abbrev pub full_q8 : ℕ
full_q8 = env_full * 256

-- `enum synth_waveform` and `enum synth_env_stage`
pub data Waveform : Type 0 where
  pulse saw triangle noise : Waveform

pub data Stage : Type 0 where
  env_off attack decay sustain release : Stage

-- `struct synth_voice`; a `ring_partner` of -1 is `none`.
pub record Voice : Type 0 where
  pub waveform : Waveform
  pub phase_accum : ℕ
  pub phase_increment : ℕ
  pub duty_threshold : ℕ
  pub noise_lfsr : ℕ
  pub stage : Stage
  pub level : ℕ
  pub attack_rate : ℕ
  pub decay_rate : ℕ
  pub sustain_level : ℕ
  pub release_rate : ℕ
  pub ring_partner : Option ℕ
  pub filter_route : Bool
  pub arp_notes : List ℕ
  pub arp_count : ℕ
  pub arp_active : Bool
  pub arp_step : ℕ
  pub arp_step_rate : ℕ
  pub arp_step_counter : ℕ

-- One voice of `synth_init`.
abbrev pub fresh_voice : ℕ → Voice
fresh_voice v = record {
  waveform = pulse;
  phase_accum = 0;
  phase_increment = 0;
  duty_threshold = 128;
  noise_lfsr = 0xACE1 + v;
  stage = env_off;
  level = 0;
  attack_rate = full_q8;
  decay_rate = full_q8;
  sustain_level = full_q8;
  release_rate = full_q8;
  ring_partner = none;
  filter_route = false;
  arp_notes = replicate arp_slots 1;
  arp_count = 0;
  arp_active = false;
  arp_step = 0;
  arp_step_rate = 1;
  arp_step_counter = 0;
}

-- A C `int` between two bounds, as the setters' guards ask.
abbrev pub within : ℕ → ℕ → ℤ → Option ℕ
within lo hi (pos n) = if leb lo n && leb n hi then some n else none
within lo hi (negsuc n) = none

-- A C `int` clamped to two bounds.
abbrev pub clamped : ℕ → ℕ → ℤ → ℕ
clamped lo hi (pos n) = if ltb n lo then lo else if ltb hi n then hi else n
clamped lo hi (negsuc n) = lo

-- The table's entry for a key; key 0 would read before the table.
abbrev pub increment_of : ℕ → Option ℕ
increment_of zero = none
increment_of (suc n) = get_elem? ona_phase_increment n

abbrev pub tuned : Option ℕ → Voice → Option Voice
tuned none v = none
tuned (some i) v = some (record v { phase_increment = i })

-- `synth_set_voice_waveform`, on its voice; the other setters likewise.
abbrev pub waveform_of : ℕ → Waveform
waveform_of zero = pulse
waveform_of (suc zero) = saw
waveform_of (suc (suc zero)) = triangle
waveform_of (suc (suc (suc n))) = noise

unfoldable pub set_waveform : ℤ → Voice → Option Voice
set_waveform wave v = elim (within 0 3 wave) [
  | none ↦ some v
  | some w ↦ some (record v { waveform = waveform_of w })
]

-- `synth_set_duty`
unfoldable pub set_duty : ℤ → Voice → Option Voice
set_duty duty_percent v = some (record v { duty_threshold = clamped 1 99 duty_percent * 256 / 100 })

-- `synth_set_ona`
unfoldable pub set_ona : ℤ → Voice → Option Voice
set_ona ona v = elim (within 1 88 ona) [ none ↦ some v | some n ↦ tuned (increment_of n) v ]

-- `synth_set_ring_partner` and `synth_clear_ring_partner`
unfoldable pub set_ring_partner : ℤ → Voice → Option Voice
set_ring_partner partner v = elim (within 0 7 partner) [
  | none ↦ some v
  | some p ↦ some (record v { ring_partner = some p })
]

unfoldable pub clear_ring_partner : Voice → Option Voice
clear_ring_partner v = some (record v { ring_partner = none })

-- `synth_set_voice_filter_route`
unfoldable pub set_filter_route : ℤ → Voice → Option Voice
set_filter_route routed v =
    some (record v { filter_route = elim routed [ pos n ↦ not (n == 0) | negsuc n ↦ true ] })

-- `synth_calc_arp_step_samples`
unfoldable pub calc_arp_step_samples : ℤ → ℕ
calc_arp_step_samples ms =
    let samples = clamped 0 10000 ms * sample_rate % 2 ^ 32 / 1000 in
    if samples == 0 then 1 else samples

-- `synth_set_arp_note`; `none` is a write outside the four notes.
unfoldable pub set_arp_note : ℤ → ℤ → Voice → Option Voice
set_arp_note slot note v = elim (within 0 3 slot) [
  | none ↦ some v
  | some i ↦ elim (within 1 88 note) [
    | none ↦ some v
    | some n ↦
        if ltb i (length v.arp_notes)
        then some (record v { arp_notes = set v.arp_notes i n })
        else none
  ]
]

-- `synth_arp_on`, `synth_arp_off` and `synth_set_arp_rate`
unfoldable pub arp_on : ℤ → Voice → Option Voice
arp_on count v = elim (within 2 arp_slots count) [
  | none ↦ some v
  | some n ↦ some (record v { arp_count = n; arp_active = true })
]

unfoldable pub arp_off : Voice → Option Voice
arp_off v = some (record v { arp_active = false })

unfoldable pub set_arp_rate : ℤ → Voice → Option Voice
unfolding calc_arp_step_samples
set_arp_rate ms v = some (record v { arp_step_rate = calc_arp_step_samples ms })

-- `synth_calc_rate`
unfoldable pub calc_rate : ℤ → ℕ
calc_rate duration_ms =
    let samples = clamped 0 100000 duration_ms * sample_rate % 2 ^ 32 / 1000 in
    if samples == 0 then full_q8 else if full_q8 / samples == 0 then 1 else full_q8 / samples

-- `synth_set_adsr`
unfoldable pub set_adsr : ℤ → ℤ → ℤ → ℤ → Voice → Option Voice
unfolding calc_rate
set_adsr attack_ms decay_ms sustain_percent release_ms v = some (record v {
  attack_rate = calc_rate attack_ms;
  decay_rate = calc_rate decay_ms;
  sustain_level = clamped 0 100 sustain_percent * env_full / 100 * 256;
  release_rate = calc_rate release_ms;
})

abbrev pub started : Voice → Voice
started v = if v.phase_increment == 0 then v else record v { level = 0; stage = attack }

abbrev pub first_note : List ℕ → Option ℕ
first_note [] = none
first_note (n ∷ ns) = increment_of n

abbrev pub gated : Option Voice → Option Voice
gated none = none
gated (some v) = some (started v)

-- `synth_gate_on`
unfoldable pub gate_on : Voice → Option Voice
gate_on v =
    if v.arp_active
    then gated (tuned (first_note v.arp_notes) (record v { arp_step = 0; arp_step_counter = 0 }))
    else some (started v)

-- `synth_gate_off`
abbrev pub is_off : Stage → Bool
is_off env_off = true
is_off _ = false

unfoldable pub gate_off : Voice → Option Voice
gate_off v = some (if is_off v.stage then v else record v { stage = release })

-- `synth_envelope_advance_sample`: the voice after it, whose level shifted by 8 is the result. Where
-- the decay would go below 0 it is below the sustain level as well.
abbrev pub advance_at : Stage → Voice → Voice
advance_at env_off v = record v { level = 0 }
advance_at attack v =
    if leb full_q8 (v.level + v.attack_rate)
    then record v { level = full_q8; stage = decay }
    else record v { level = v.level + v.attack_rate }
advance_at decay v =
    if ltb v.sustain_level v.level
    then if leb (v.level - v.decay_rate) v.sustain_level
      then record v { level = v.sustain_level; stage = sustain }
      else record v { level = v.level - v.decay_rate }
    else record v { stage = sustain }
advance_at sustain v = record v { level = v.sustain_level }
advance_at release v =
    if ltb v.release_rate v.level
    then record v { level = v.level - v.release_rate }
    else record v { level = 0; stage = env_off }

unfoldable pub advance_sample : Voice → Voice
advance_sample v = advance_at v.stage v
