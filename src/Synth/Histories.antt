-- ===== src/Synth/Histories.antt =====
-- kernel/audio/synth.c: histories of its calls.
use rave_os.Prelude.{
  ◌∙◌, length-set, ◌%◌, if_cases, ◌&&◌, ltb, ◌≤◌, if◌then◌else◌, Bool, Bool, true, false, ltb,
  if_cases, length-set, ◌≤◌, ◌%◌, if◌then◌else◌, ◌&&◌, ℕ, zero, suc, ◌+◌, ◌-◌, ◌<◌, Option, none,
  some, List, [], ◌∷◌, not, get_elem?, get_elem?_exists, length, Every, ◌≡◌, refl, ap, if_both,
  arith, ℤ, pos, negsuc, ◌+ℤ◌,
}
use rave_os.Synth.Tables.{f_coeff, q_coeff}
use rave_os.Synth.Voice.{within, clamped, fresh_voice, num_voices}
use rave_os.Synth.Filter.{
  if_seen, put_out, recorded, Filter, set_cutoff, set_resonance, set_mode, process_sample,
  process_with, settled, seen_before,
}
use rave_os.Prelude.{◌≤ℤ◌}
use rave_os.Synth.Filter.{recorded, if_seen, put_out, state_max, state_limited, eq_ℤ}
use rave_os.Synth.Render.{
  Synth, Mix, byte_of, mix_from, render_sample, render_half, fresh_from, init, Call, initialise,
  on_voice, cutoff, resonance, mode, render, at_voice, voice_call, VoiceCall, perform,
}
use rave_os.Synth.Setters.{Yields, IsKey, VoiceOk, within-bounds, voice_call-VoiceOk}
use rave_os.Synth.Safety.{
  VoicesOk, MixOk, bind-Yields, get_elem?-Yields, VoicesOk-set, mix_from-VoicesOk,
}

abbrev pub IsLimited : ℤ → Type 0
IsLimited a = (negsuc (state_max - 1) ≤ℤ a) × (a ≤ℤ pos state_max)

-- The filter's settings index their tables, its state is within the clamp, and its history has 512
-- slots.
abbrev pub FilterOk : Filter → Type 0
FilterOk st =
    (st.cutoff_index < 256)
    × (st.res_index < 16)
    × IsLimited st.lp
    × IsLimited st.bp
    × (length st.history ≡ 512)

abbrev pub SynthOk : Synth → Type 0
SynthOk sy = VoicesOk sy.voices × FilterOk sy.filter

state_limited-IsLimited : (a : ℤ) → IsLimited (state_limited a)
state_limited-IsLimited a = ground arith

-- The settings and the history alone.
abbrev pub SettingsOk : Filter → Type 0
SettingsOk st = (st.cutoff_index < 256) × (st.res_index < 16) × (length st.history ≡ 512)

seen_before-Yields :
    (lp bp : ℤ) (seen : ℕ) (hs : List (ℤ × ℤ))
    → seen ≤ length hs
    → Yields (λ b. Unit {0}) (seen_before lp bp seen hs)
unfolding seen_before
seen_before-Yields lp bp zero hs h = tt
seen_before-Yields lp bp (suc seen) [] h = absurd (omega arith)
seen_before-Yields lp bp (suc seen) (x ∷ hs) h =
    if_both (Yields (λ (b : Bool). Unit {0})) (eq_ℤ x.0 lp && eq_ℤ x.1 bp) tt
      (seen_before-Yields lp bp seen hs (omega arith))

recorded-SettingsOk :
    (lp bp : ℤ) (st : Filter) → SettingsOk st → Yields SettingsOk (recorded lp bp st)
unfolding recorded
recorded-SettingsOk lp bp st h =
    if_cases (Yields SettingsOk) (ltb (st.hist_count % 512) (length st.history))
      (λ inside. (h.0, h.1, length-set st.history _ _ ∙ h.2))
      (λ outside. let size = h.2 in absurd (ground arith))

if_seen-SettingsOk :
    (o : Option Bool) (lp bp : ℤ) (st : Filter)
    → Yields (λ b. Unit {0}) o
    → SettingsOk st
    → Yields SettingsOk (if_seen o lp bp st)
if_seen-SettingsOk none lp bp st y h = y
if_seen-SettingsOk (some true) lp bp st y h = h
if_seen-SettingsOk (some false) lp bp st y h = recorded-SettingsOk lp bp st h

settled-SettingsOk :
    (input lp bp : ℤ) (st : Filter) → SettingsOk st → Yields SettingsOk (settled input lp bp st)
unfolding settled
settled-SettingsOk input lp bp st h =
    let seen = if ltb st.hist_count 512 then st.hist_count else 512 in
    let within_history : seen ≤ length st.history = let size = h.2 in ground arith in
    if_both (Yields SettingsOk) (not (eq_ℤ input (pos 0))) h (
      if_seen-SettingsOk (seen_before lp bp seen st.history) lp bp st
        (seen_before-Yields lp bp seen st.history within_history) h)

put_out-FilterOk :
    (mask : ℕ) (hp : ℤ) (o : Option Filter)
    → Yields SettingsOk o
    → Yields (λ r. FilterOk r.1) (put_out mask hp o)
put_out-FilterOk mask hp none h = h
put_out-FilterOk mask hp (some st) h =
    (h.0, h.1, state_limited-IsLimited st.lp, state_limited-IsLimited st.bp, h.2)

process_with-FilterOk :
    (f q : ℕ) (input : ℤ) (st : Filter)
    → FilterOk st
    → Yields (λ r. FilterOk r.1) (process_with f q input st)
unfolding process_with
process_with-FilterOk f q input st h =
    put_out-FilterOk st.mode_mask _ _ (settled-SettingsOk input _ _ st (h.0, h.1, h.4))

process_sample-FilterOk :
    (input : ℤ) (st : Filter) → FilterOk st → Yields (λ r. FilterOk r.1) (process_sample input st)
unfolding process_sample
process_sample-FilterOk input st h =
    rw
      (
        (get_elem?_exists f_coeff st.cutoff_index (omega (arith, h.0))).1,
        (get_elem?_exists q_coeff st.res_index (omega (arith, h.1))).1,
      )
      (process_with-FilterOk _ _ input st h)

pub byte_of-lt : (sum : ℤ) → byte_of sum < 256
unfolding ◌+ℤ◌
byte_of-lt sum = ground arith

-- `len` bytes and a synthesiser in order.
abbrev pub Rendered : ℕ → List ℕ × Synth → Type 0
Rendered len r = (length r.0 ≡ len) × Every (λ b. b < 256) r.0 × SynthOk r.1

abbrev SampleOk : ℕ × Synth → Type 0
SampleOk r = (r.0 < 256) × SynthOk r.1

render_sample-SampleOk : (sy : Synth) → SynthOk sy → Yields SampleOk (render_sample sy)
unfolding render_sample
render_sample-SampleOk sy h =
    let silent : Mix = record { voices = sy.voices; filtered_sum = pos 0; bypass_sum = pos 0 } in
    bind-Yields MixOk SampleOk (mix_from num_voices 0 silent) _
      (mix_from-VoicesOk num_voices 0 silent (omega arith) h.0)
      (λ m k.
        bind-Yields (λ r. FilterOk r.1) SampleOk (process_sample m.filtered_sum sy.filter) _
          (process_sample-FilterOk m.filtered_sum sy.filter h.1)
          (λ r k'. (byte_of-lt (r.0 +ℤ m.bypass_sum), (k, k'))))

-- From a synthesiser in order, `synth_render_half` fills the buffer with exactly as many samples as it
-- is asked for, each a byte, makes no access outside an array, and leaves the synthesiser in order.
pub render_half-Rendered :
    (len : ℕ) (sy : Synth) → SynthOk sy → Yields (Rendered len) (render_half len sy)
unfolding render_half
render_half-Rendered zero sy h = (refl, tt, h)
render_half-Rendered (suc len) sy h =
    bind-Yields SampleOk (Rendered (suc len)) (render_sample sy) _ (render_sample-SampleOk sy h)
      (λ r k.
        bind-Yields (Rendered len) (Rendered (suc len)) (render_half len r.1) _
          (render_half-Rendered len r.1 k.1) (λ rest k'. (ap suc k'.0, (k.0, k'.1), k'.2)))

fresh_from-VoicesOk : (n v : ℕ) → (length (fresh_from n v) ≡ n) × Every VoiceOk (fresh_from n v)
unfolding fresh_from
fresh_from-VoicesOk zero v = (refl, tt)
fresh_from-VoicesOk (suc n) v =
    let rest = fresh_from-VoicesOk n (v + 1) in (ap suc rest.0, (fresh, rest.1))
  where
    fresh : VoiceOk (fresh_voice v)
    fresh = (
      (refl, (key, (key, (key, (key, tt)))), (λ e. absurd (cc)), omega arith),
      tt,
      (omega arith, omega arith),
    )
      where
        key : IsKey 1
        key = (omega arith, omega arith)

at_voice-SynthOk :
    (o : Option ℕ) (c : VoiceCall) (sy : Synth)
    → ((n : ℕ) → o ≡ some n → n < 8)
    → SynthOk sy
    → Yields SynthOk (at_voice o c sy)
unfolding at_voice
at_voice-SynthOk none c sy lt h = h
at_voice-SynthOk (some n) c sy lt h =
    bind-Yields VoiceOk SynthOk (get_elem? sy.voices n) _
      (get_elem?-Yields VoiceOk sy.voices n h.0.1 (omega (arith, lt n refl, h.0.0)))
      (λ v k.
        bind-Yields VoiceOk SynthOk (voice_call c v) _ (voice_call-VoiceOk c v k)
          (λ v' k'. (VoicesOk-set sy.voices n v' k' h.0, h.1)))

pub clamped-lt : (hi : ℕ) (z : ℤ) → clamped 0 hi z < suc hi
clamped-lt hi z = ground arith

-- `synth_init` puts a synthesiser in order if the filter's settings index their tables and its history
-- has 512 slots.
pub init-SynthOk : (st : Filter) → SettingsOk st → SynthOk (init st)
unfolding init
init-SynthOk st h = (
  fresh_from-VoicesOk 8 0,
  (h.0, h.1, (omega arith, omega arith), (omega arith, omega arith), h.2),
)

pub perform-SynthOk : (c : Call) (sy : Synth) → SynthOk sy → Yields SynthOk (perform c sy)
unfolding perform set_cutoff set_resonance set_mode
perform-SynthOk initialise sy h = init-SynthOk sy.filter (h.1.0, h.1.1, h.1.4)
perform-SynthOk (on_voice voice c) sy h =
    at_voice-SynthOk (within 0 7 voice) c sy
      (λ n e. let b = within-bounds 0 7 n voice e in omega arith) h
perform-SynthOk (cutoff n) sy h = (h.0, (clamped-lt 255 n, h.1.1, h.1.2, h.1.3, h.1.4))
perform-SynthOk (resonance n) sy h = (h.0, (h.1.0, clamped-lt 15 n, h.1.2, h.1.3, h.1.4))
perform-SynthOk (mode n) sy h = h
perform-SynthOk (render len) sy h =
    bind-Yields (Rendered len) SynthOk (render_half len sy) _ (render_half-Rendered len sy h)
      (λ r k. k.2)
