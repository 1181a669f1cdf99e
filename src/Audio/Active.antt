-- ===== src/Audio/Active.antt =====
-- v2/core/kernel/kernel_audio.c: the count of the voices that sound, and their owners.
use rave_os.Prelude.{
  ℕ, zero, suc, ◌+◌, ◌*◌, ◌/◌, ◌%◌, ◌≤◌, true, List, [], ◌∷◌, ◌==◌, if◌then◌else◌, length, ◌≡◌,
  refl, if_both, if_cases, arith,
}
use rave_os.Audio.Commands.{Command}
use rave_os.Audio.Queue.{Holds, taken-Holds}
use rave_os.Synth.Voice.{Voice, num_voices, is_off}
use rave_os.Synth.Render.{render_half}
use rave_os.Synth.Setters.{Yields}
use rave_os.Synth.Safety.{bind-Yields}
use rave_os.Synth.Histories.{Rendered, render_half-Rendered}
use rave_os.Audio.Mixer.{
  Audio, apply_all, mask_of, count_bits, active_voice_count, drain_and_render,
}
use rave_os.Audio.Safety.{VoicesState, apply_all-VoicesState}

-- How many of the voices sound.
unfoldable pub sounding : List Voice → ℕ
sounding [] = 0
sounding (v ∷ vs) = (if is_off v.stage then 0 else 1) + sounding vs

abbrev bit_of : Voice → ℕ
bit_of v = if is_off v.stage then 0 else 1

bit_of-le : (v : Voice) → bit_of v ≤ 1
bit_of-le v = if_both (λ (n : ℕ). n ≤ 1) (is_off v.stage) (omega arith) (omega arith)

zero_mask : (vs : List Voice) → mask_of vs ≡ 0 → sounding vs ≡ 0
unfolding mask_of sounding
zero_mask [] e = refl
zero_mask (v ∷ vs) e =
    let low = bit_of-le v in let ih = zero_mask vs (omega (arith, e)) in omega (arith, e, ih)

of_== : (a b : ℕ) → (a == b) ≡ true → a ≡ b
of_== a b e = ground arith

-- One round of the loop over a mask with lowest bit `b` and the rest `m`.
count_round :
    (n b m c : ℕ)
    → b ≤ 1
    → (m ≡ 0 → c ≡ 0)
    → count_bits n m ≡ c
    → count_bits (suc n) (b + 2 * m) ≡ b + c
unfolding count_bits
count_round n b m c low none_left ih =
    let half : (b + 2 * m) / 2 ≡ m = omega arith in
    let bit : (b + 2 * m) % 2 ≡ b = omega arith in
    if_cases (λ (k : ℕ). k ≡ b + c) ((b + 2 * m) == 0)
      (λ e.
        let all_off = of_== (b + 2 * m) 0 e in let c_zero = none_left (omega arith) in omega arith)
      (λ e. rw (half, bit, ih))

count_zero : (n : ℕ) → count_bits n 0 ≡ 0
unfolding count_bits
count_zero zero = refl
count_zero (suc n) = refl

count_bits-mask_of :
    (n : ℕ) (vs : List Voice) → length vs ≤ n → count_bits n (mask_of vs) ≡ sounding vs
unfolding mask_of sounding
count_bits-mask_of zero [] h = count_zero 0
count_bits-mask_of zero (v ∷ vs) h = absurd (omega arith)
count_bits-mask_of (suc n) [] h = count_zero (suc n)
count_bits-mask_of (suc n) (v ∷ vs) h =
    count_round n (bit_of v) (mask_of vs) (sounding vs) (bit_of-le v) (zero_mask vs)
      (count_bits-mask_of n vs (omega arith))

abbrev Counted : List ℕ × Audio → Type 0
Counted r = active_voice_count r.1 ≡ sounding r.1.voices.synth.voices

-- If the ring stands for a list of waiting commands, the synthesiser is in order and each voice has an
-- owner's slot, then the audio callback returns, and after it the number of active voices that is
-- reported is the number of voices whose envelope is not off.
pub drain_and_render-sounding :
    (len : ℕ) (a : Audio) (l : List Command)
    → Holds a.ring l
    → VoicesState a.voices
    → Yields
        (λ r. active_voice_count r.1 ≡ sounding r.1.voices.synth.voices)
        (drain_and_render len a)
unfolding drain_and_render active_voice_count
drain_and_render-sounding len a l ring h = rw (taken-Holds a.ring l ring).0 (
    bind-Yields VoicesState Counted (apply_all l a.voices) _ (apply_all-VoicesState l a.voices h)
      (λ vs k.
        bind-Yields (Rendered len) Counted (render_half len vs.synth) _
          (render_half-Rendered len vs.synth k.0)
          (λ r k'. count_bits-mask_of num_voices r.1.voices (omega (arith, k'.2.0.0)))))
