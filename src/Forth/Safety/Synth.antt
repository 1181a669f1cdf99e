-- ===== src/Forth/Safety/Synth.antt =====
-- kernel/forth/forth.c: the primitives that drive the synthesizer, and what they may change.
use rave_os.Prelude.{◌||◌, ltb, leb, if◌then◌else◌, codes}
use rave_os.Forth.Numbers.{is_negative}
use rave_os.Forth.Vm.{
  Vm, gate_on, gate_off, ring_off, arp_off, voice, wave, duty, ona, filter_cutoff, filter_res,
  filter_mode, filter_route, ring_partner, arp_on, arp_rate, adsr, arp_note, set_error, pop_then,
  call_hook,
}
use rave_os.Forth.Words.{
  prim_synth_voice, prim_synth_wave, prim_synth_duty, prim_synth_ona, prim_synth_adsr,
  prim_synth_gate_on, prim_synth_gate_off, prim_synth_filter_cutoff, prim_synth_filter_res,
  prim_synth_filter_mode, prim_synth_filter_route, prim_synth_ring_partner, prim_synth_ring_off,
  prim_synth_arp_note, prim_synth_arp_on, prim_synth_arp_off, prim_synth_arp_rate,
}
use rave_os.Forth.Safety.Fine.{Fine, set_error-Fine, call_hook-Fine, if-Fine, pop_then-Fine}

module _ {before : Vm} where
  pub prim_synth_voice-Fine : (vm : Vm) → Fine before vm → Fine before (prim_synth_voice vm)
  unfolding prim_synth_voice
  prim_synth_voice-Fine vm f =
      pop_then-Fine vm
        (λ n vm.
          if is_negative n || leb 8 n
          then set_error vm (codes "BAD VOICE")
          else call_hook vm (voice n))
        f
        (λ n vm f.
          if-Fine (is_negative n || leb 8 n) (set_error vm (codes "BAD VOICE"))
            (call_hook vm (voice n)) (set_error-Fine vm (codes "BAD VOICE") f)
            (call_hook-Fine vm (voice n) f))

  pub prim_synth_wave-Fine : (vm : Vm) → Fine before vm → Fine before (prim_synth_wave vm)
  unfolding prim_synth_wave
  prim_synth_wave-Fine vm f =
      pop_then-Fine vm
        (λ n vm.
          if is_negative n || ltb 3 n
          then set_error vm (codes "BAD WAVE")
          else call_hook vm (wave n))
        f
        (λ n vm f.
          if-Fine (is_negative n || ltb 3 n) (set_error vm (codes "BAD WAVE"))
            (call_hook vm (wave n)) (set_error-Fine vm (codes "BAD WAVE") f)
            (call_hook-Fine vm (wave n) f))

  pub prim_synth_duty-Fine : (vm : Vm) → Fine before vm → Fine before (prim_synth_duty vm)
  unfolding prim_synth_duty
  prim_synth_duty-Fine vm f =
      pop_then-Fine vm (λ n vm. call_hook vm (duty n)) f (λ n vm f. call_hook-Fine vm (duty n) f)

  pub prim_synth_ona-Fine : (vm : Vm) → Fine before vm → Fine before (prim_synth_ona vm)
  unfolding prim_synth_ona
  prim_synth_ona-Fine vm f =
      pop_then-Fine vm
        (λ n vm.
          if is_negative n || (ltb n 1 || ltb 88 n)
          then set_error vm (codes "BAD ONA")
          else call_hook vm (ona n))
        f
        (λ n vm f.
          if-Fine (is_negative n || (ltb n 1 || ltb 88 n)) (set_error vm (codes "BAD ONA"))
            (call_hook vm (ona n)) (set_error-Fine vm (codes "BAD ONA") f)
            (call_hook-Fine vm (ona n) f))

  pub prim_synth_adsr-Fine : (vm : Vm) → Fine before vm → Fine before (prim_synth_adsr vm)
  unfolding prim_synth_adsr
  prim_synth_adsr-Fine vm f =
      pop_then-Fine vm
        (λ r vm.
          pop_then vm
            (λ s vm. pop_then vm (λ d vm. pop_then vm (λ a vm. call_hook vm (adsr a d s r)))))
        f
        (λ r vm f.
          pop_then-Fine vm
            (λ s vm. pop_then vm (λ d vm. pop_then vm (λ a vm. call_hook vm (adsr a d s r)))) f
            (λ s vm f.
              pop_then-Fine vm (λ d vm. pop_then vm (λ a vm. call_hook vm (adsr a d s r))) f
                (λ d vm f.
                  pop_then-Fine vm (λ a vm. call_hook vm (adsr a d s r)) f
                    (λ a vm f. call_hook-Fine vm (adsr a d s r) f))))

  pub prim_synth_gate_on-Fine : (vm : Vm) → Fine before vm → Fine before (prim_synth_gate_on vm)
  unfolding prim_synth_gate_on
  prim_synth_gate_on-Fine vm f = call_hook-Fine vm (gate_on) f

  pub prim_synth_gate_off-Fine : (vm : Vm) → Fine before vm → Fine before (prim_synth_gate_off vm)
  unfolding prim_synth_gate_off
  prim_synth_gate_off-Fine vm f = call_hook-Fine vm (gate_off) f

  pub prim_synth_filter_cutoff-Fine :
      (vm : Vm) → Fine before vm → Fine before (prim_synth_filter_cutoff vm)
  unfolding prim_synth_filter_cutoff
  prim_synth_filter_cutoff-Fine vm f =
      pop_then-Fine vm (λ n vm. call_hook vm (filter_cutoff n)) f
        (λ n vm f. call_hook-Fine vm (filter_cutoff n) f)

  pub prim_synth_filter_res-Fine :
      (vm : Vm) → Fine before vm → Fine before (prim_synth_filter_res vm)
  unfolding prim_synth_filter_res
  prim_synth_filter_res-Fine vm f =
      pop_then-Fine vm (λ n vm. call_hook vm (filter_res n)) f
        (λ n vm f. call_hook-Fine vm (filter_res n) f)

  pub prim_synth_filter_mode-Fine :
      (vm : Vm) → Fine before vm → Fine before (prim_synth_filter_mode vm)
  unfolding prim_synth_filter_mode
  prim_synth_filter_mode-Fine vm f =
      pop_then-Fine vm (λ n vm. call_hook vm (filter_mode n)) f
        (λ n vm f. call_hook-Fine vm (filter_mode n) f)

  pub prim_synth_filter_route-Fine :
      (vm : Vm) → Fine before vm → Fine before (prim_synth_filter_route vm)
  unfolding prim_synth_filter_route
  prim_synth_filter_route-Fine vm f =
      pop_then-Fine vm (λ n vm. call_hook vm (filter_route n)) f
        (λ n vm f. call_hook-Fine vm (filter_route n) f)

  pub prim_synth_ring_partner-Fine :
      (vm : Vm) → Fine before vm → Fine before (prim_synth_ring_partner vm)
  unfolding prim_synth_ring_partner
  prim_synth_ring_partner-Fine vm f =
      pop_then-Fine vm
        (λ n vm.
          if is_negative n || ltb 7 n
          then set_error vm (codes "BAD PARTNER")
          else call_hook vm (ring_partner n))
        f
        (λ n vm f.
          if-Fine (is_negative n || ltb 7 n) (set_error vm (codes "BAD PARTNER"))
            (call_hook vm (ring_partner n)) (set_error-Fine vm (codes "BAD PARTNER") f)
            (call_hook-Fine vm (ring_partner n) f))

  pub prim_synth_ring_off-Fine : (vm : Vm) → Fine before vm → Fine before (prim_synth_ring_off vm)
  unfolding prim_synth_ring_off
  prim_synth_ring_off-Fine vm f = call_hook-Fine vm (ring_off) f

  pub prim_synth_arp_note-Fine : (vm : Vm) → Fine before vm → Fine before (prim_synth_arp_note vm)
  unfolding prim_synth_arp_note
  prim_synth_arp_note-Fine vm f =
      pop_then-Fine vm
        (λ slot vm. pop_then vm (λ note vm.
          if is_negative slot || ltb 3 slot
          then set_error vm (codes "BAD ARP SLOT")
          else if is_negative note || (ltb note 1 || ltb 88 note)
          then set_error vm (codes "BAD ARP NOTE")
          else call_hook vm (arp_note note slot)))
        f
        (λ slot vm f.
          pop_then-Fine vm
            (λ note vm.
              if is_negative slot || ltb 3 slot
              then set_error vm (codes "BAD ARP SLOT")
              else if is_negative note || (ltb note 1 || ltb 88 note)
              then set_error vm (codes "BAD ARP NOTE")
              else call_hook vm (arp_note note slot))
            f
            (λ note vm f.
              if-Fine (is_negative slot || ltb 3 slot) (set_error vm (codes "BAD ARP SLOT"))
                (if is_negative note || (ltb note 1 || ltb 88 note)
                  then set_error vm (codes "BAD ARP NOTE")
                  else call_hook vm (arp_note note slot))
                (set_error-Fine vm (codes "BAD ARP SLOT") f)
                (if-Fine (is_negative note || (ltb note 1 || ltb 88 note))
                  (set_error vm (codes "BAD ARP NOTE")) (call_hook vm (arp_note note slot))
                  (set_error-Fine vm (codes "BAD ARP NOTE") f)
                  (call_hook-Fine vm (arp_note note slot) f))))

  pub prim_synth_arp_on-Fine : (vm : Vm) → Fine before vm → Fine before (prim_synth_arp_on vm)
  unfolding prim_synth_arp_on
  prim_synth_arp_on-Fine vm f =
      pop_then-Fine vm
        (λ n vm.
          if is_negative n || (ltb n 2 || ltb 4 n)
          then set_error vm (codes "BAD ARP COUNT")
          else call_hook vm (arp_on n))
        f
        (λ n vm f.
          if-Fine (is_negative n || (ltb n 2 || ltb 4 n)) (set_error vm (codes "BAD ARP COUNT"))
            (call_hook vm (arp_on n)) (set_error-Fine vm (codes "BAD ARP COUNT") f)
            (call_hook-Fine vm (arp_on n) f))

  pub prim_synth_arp_off-Fine : (vm : Vm) → Fine before vm → Fine before (prim_synth_arp_off vm)
  unfolding prim_synth_arp_off
  prim_synth_arp_off-Fine vm f = call_hook-Fine vm (arp_off) f

  pub prim_synth_arp_rate-Fine : (vm : Vm) → Fine before vm → Fine before (prim_synth_arp_rate vm)
  unfolding prim_synth_arp_rate
  prim_synth_arp_rate-Fine vm f =
      pop_then-Fine vm (λ n vm. call_hook vm (arp_rate n)) f
        (λ n vm f. call_hook-Fine vm (arp_rate n) f)
