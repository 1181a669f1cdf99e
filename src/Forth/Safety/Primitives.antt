-- ===== src/Forth/Safety/Primitives.antt =====
-- kernel/forth/forth.c: the table of primitives, and what its entries may change.
use rave_os.Prelude.{
  eq_of_some, subst, get_elem?_exists, ℕ, zero, suc, ◌<◌, ◌≡◌, List, [], ◌∷◌, some, get_elem?,
  length,
}
use rave_os.Forth.Vm.{Vm}
use rave_os.Forth.Words.{Primitive, primitives}
use rave_os.Forth.Safety.Fine.{Fine}
use rave_os.Forth.Safety.Basics.{
  prim_add-Fine, prim_sub-Fine, prim_mul-Fine, prim_div-Fine, prim_dup-Fine, prim_drop-Fine,
  prim_swap-Fine, prim_over-Fine, prim_eq-Fine, prim_lt-Fine, prim_gt-Fine, prim_dot-Fine,
  prim_cr-Fine, prim_fetch-Fine, prim_store-Fine, prim_beep-Fine,
}
use rave_os.Forth.Safety.Synth.{
  prim_synth_voice-Fine, prim_synth_wave-Fine, prim_synth_duty-Fine, prim_synth_ona-Fine,
  prim_synth_adsr-Fine, prim_synth_gate_on-Fine, prim_synth_gate_off-Fine,
  prim_synth_filter_cutoff-Fine, prim_synth_filter_res-Fine, prim_synth_filter_mode-Fine,
  prim_synth_filter_route-Fine, prim_synth_ring_partner-Fine, prim_synth_ring_off-Fine,
  prim_synth_arp_note-Fine, prim_synth_arp_on-Fine, prim_synth_arp_off-Fine,
  prim_synth_arp_rate-Fine,
}

-- A function that only changes what a primitive may.
abbrev pub KeepsFine : (Vm → Vm) → Type 0
KeepsFine fn = (before vm : Vm) → Fine before vm → Fine before (fn vm)

abbrev All : List Primitive → Type 0
All [] = Unit {0}
All (p ∷ ps) = KeepsFine p.fn × All ps

All-get :
    (ps : List Primitive) (i : ℕ) {p : Primitive}
    → All ps
    → get_elem? ps i ≡ some p
    → KeepsFine p.fn
All-get [] i a e = cc
All-get (p ∷ ps) zero {p = q} a e = subst (λ (q : Primitive). KeepsFine q.fn) (eq_of_some e) a.0
All-get (p ∷ ps) (suc i) a e = All-get ps i a.1 e

primitives-All : All primitives
unfolding primitives
primitives-All = (
  λ before vm. prim_add-Fine vm,
  (
    (λ before vm. prim_sub-Fine vm),
    (
      (λ before vm. prim_mul-Fine vm),
      (
        (λ before vm. prim_div-Fine vm),
        (
          (λ before vm. prim_dup-Fine vm),
          (
            (λ before vm. prim_drop-Fine vm),
            (
              (λ before vm. prim_swap-Fine vm),
              (
                (λ before vm. prim_over-Fine vm),
                (
                  (λ before vm. prim_eq-Fine vm),
                  (
                    (λ before vm. prim_lt-Fine vm),
                    (
                      (λ before vm. prim_gt-Fine vm),
                      (
                        (λ before vm. prim_dot-Fine vm),
                        (
                          (λ before vm. prim_cr-Fine vm),
                          (
                            (λ before vm. prim_fetch-Fine vm),
                            (
                              (λ before vm. prim_store-Fine vm),
                              (
                                (λ before vm. prim_beep-Fine vm),
                                (
                                  (λ before vm. prim_synth_voice-Fine vm),
                                  (
                                    (λ before vm. prim_synth_wave-Fine vm),
                                    (
                                      (λ before vm. prim_synth_duty-Fine vm),
                                      (
                                        (λ before vm. prim_synth_ona-Fine vm),
                                        (
                                          (λ before vm. prim_synth_adsr-Fine vm),
                                          (
                                            (λ before vm. prim_synth_gate_on-Fine vm),
                                            (
                                              (λ before vm. prim_synth_gate_off-Fine vm),
                                              (
                                                (λ before vm. prim_synth_filter_cutoff-Fine vm),
                                                (
                                                  (λ before vm. prim_synth_filter_res-Fine vm),
                                                  (
                                                    (λ before vm. prim_synth_filter_mode-Fine vm),
                                                    (
                                                      (λ before vm.
                                                          prim_synth_filter_route-Fine vm),
                                                      (
                                                        (λ before vm.
                                                            prim_synth_ring_partner-Fine vm),
                                                        (
                                                          (λ before vm.
                                                            prim_synth_ring_off-Fine vm),
                                                          (
                                                            (λ before vm.
                                                            prim_synth_arp_note-Fine vm),
                                                            (
                                                            (λ before vm.
                                                            prim_synth_arp_on-Fine vm),
                                                            (
                                                            (λ before vm.
                                                            prim_synth_arp_off-Fine vm),
                                                            (
                                                            (λ before vm.
                                                            prim_synth_arp_rate-Fine vm),
                                                            (tt),
                                                            ),
                                                            ),
                                                            ),
                                                          ),
                                                        ),
                                                      ),
                                                    ),
                                                  ),
                                                ),
                                              ),
                                            ),
                                          ),
                                        ),
                                      ),
                                    ),
                                  ),
                                ),
                              ),
                            ),
                          ),
                        ),
                      ),
                    ),
                  ),
                ),
              ),
            ),
          ),
        ),
      ),
    ),
  ),
)

pub primitive-Fine : (i : ℕ) {p : Primitive} → get_elem? primitives i ≡ some p → KeepsFine p.fn
primitive-Fine i e = All-get primitives i primitives-All e

-- There are 33 of them.
pub primitive_exists :
    (i : ℕ) → i < length primitives → (p : Primitive) × (get_elem? primitives i ≡ some p)
primitive_exists i h = get_elem?_exists primitives i h
