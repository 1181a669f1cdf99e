-- ===== src/Forth/Safety/Basics.antt =====
-- kernel/forth/forth.c: the primitives of the stack, arithmetic, output and memory, and what they may change.
use rave_os.Prelude.{
  ◌+◌, ◌-◌, ◌*◌, ◌%◌, ◌^◌, [], ◌∷◌, ◌==◌, ◌&&◌, ◌||◌, leb, if◌then◌else◌, get_elem?, ℕ, ◌<◌, ◌≡◌,
  Bool, true, false, refl, arith, codes,
}
use rave_os.Forth.Numbers.{is_negative, signed_lt, signed_div, format_int}
use rave_os.Forth.Vm.{Vm, beep, mem_size, forth_write, set_error, forth_push, pop_then}
use rave_os.Forth.Words.{
  push_cell, store_cell, flag, prim_add, prim_sub, prim_mul, prim_div, prim_dup, prim_drop,
  prim_swap, prim_over, prim_eq, prim_lt, prim_gt, prim_dot, prim_cr, prim_fetch, prim_store,
  prim_beep,
}
use rave_os.Forth.Safety.Fine.{
  fetch-Fine, test-Fine, Fine, set_error-Fine, forth_push-Fine, forth_write-Fine, call_hook-Fine,
  store-Fine, if-Fine, pop_then-Fine,
}

-- An address that was let through.
in_memory : (addr : ℕ) → (is_negative addr || leb mem_size addr) ≡ false → addr < 64
in_memory addr low = go (is_negative addr) (leb mem_size addr) refl low
  where
    go : (n b : Bool) → leb mem_size addr ≡ b → (n || b) ≡ false → addr < 64
    go true b e h = cc
    go false true e h = cc
    go false false e h = ground arith

module _ {before : Vm} where
  pub prim_add-Fine : (vm : Vm) → Fine before vm → Fine before (prim_add vm)
  unfolding prim_add
  prim_add-Fine vm f =
      pop_then-Fine vm (λ b vm. pop_then vm (λ a vm. forth_push vm ((a + b) % 2 ^ 32))) f
        (λ b vm f.
          pop_then-Fine vm (λ a vm. forth_push vm ((a + b) % 2 ^ 32)) f
            (λ a vm f. forth_push-Fine vm ((a + b) % 2 ^ 32) f))

  pub prim_sub-Fine : (vm : Vm) → Fine before vm → Fine before (prim_sub vm)
  unfolding prim_sub
  prim_sub-Fine vm f =
      pop_then-Fine vm (λ b vm. pop_then vm (λ a vm. forth_push vm ((a + (2 ^ 32 - b)) % 2 ^ 32))) f
        (λ b vm f.
          pop_then-Fine vm (λ a vm. forth_push vm ((a + (2 ^ 32 - b)) % 2 ^ 32)) f
            (λ a vm f. forth_push-Fine vm ((a + (2 ^ 32 - b)) % 2 ^ 32) f))

  pub prim_mul-Fine : (vm : Vm) → Fine before vm → Fine before (prim_mul vm)
  unfolding prim_mul
  prim_mul-Fine vm f =
      pop_then-Fine vm (λ b vm. pop_then vm (λ a vm. forth_push vm (a * b % 2 ^ 32))) f
        (λ b vm f.
          pop_then-Fine vm (λ a vm. forth_push vm (a * b % 2 ^ 32)) f
            (λ a vm f. forth_push-Fine vm (a * b % 2 ^ 32) f))

  pub prim_div-Fine : (vm : Vm) → Fine before vm → Fine before (prim_div vm)
  unfolding prim_div
  prim_div-Fine vm f =
      pop_then-Fine vm
        (λ b vm. pop_then vm (λ a vm.
          if b == 0
          then set_error vm (codes "DIV BY ZERO")
          else if a == 2 ^ 31 && b == 2 ^ 32 - 1
          then set_error vm (codes "DIV OVERFLOW")
          else forth_push vm (signed_div a b)))
        f
        (λ b vm f.
          pop_then-Fine vm
            (λ a vm.
              if b == 0
              then set_error vm (codes "DIV BY ZERO")
              else if a == 2 ^ 31 && b == 2 ^ 32 - 1
              then set_error vm (codes "DIV OVERFLOW")
              else forth_push vm (signed_div a b))
            f
            (λ a vm f.
              if-Fine (b == 0) (set_error vm (codes "DIV BY ZERO"))
                (if a == 2 ^ 31 && b == 2 ^ 32 - 1
                  then set_error vm (codes "DIV OVERFLOW")
                  else forth_push vm (signed_div a b))
                (set_error-Fine vm (codes "DIV BY ZERO") f)
                (if-Fine (a == 2 ^ 31 && b == 2 ^ 32 - 1) (set_error vm (codes "DIV OVERFLOW"))
                  (forth_push vm (signed_div a b)) (set_error-Fine vm (codes "DIV OVERFLOW") f)
                  (forth_push-Fine vm (signed_div a b) f))))

  pub prim_dup-Fine : (vm : Vm) → Fine before vm → Fine before (prim_dup vm)
  unfolding prim_dup
  prim_dup-Fine vm f =
      pop_then-Fine vm (λ a vm. forth_push (forth_push vm (a)) (a)) f
        (λ a vm f. forth_push-Fine (forth_push vm (a)) (a) (forth_push-Fine vm (a) f))

  pub prim_drop-Fine : (vm : Vm) → Fine before vm → Fine before (prim_drop vm)
  unfolding prim_drop
  prim_drop-Fine vm f = pop_then-Fine vm (λ a vm. vm) f (λ a vm f. f)

  pub prim_swap-Fine : (vm : Vm) → Fine before vm → Fine before (prim_swap vm)
  unfolding prim_swap
  prim_swap-Fine vm f =
      pop_then-Fine vm (λ b vm. pop_then vm (λ a vm. forth_push (forth_push vm (b)) (a))) f
        (λ b vm f.
          pop_then-Fine vm (λ a vm. forth_push (forth_push vm (b)) (a)) f
            (λ a vm f. forth_push-Fine (forth_push vm (b)) (a) (forth_push-Fine vm (b) f)))

  pub prim_over-Fine : (vm : Vm) → Fine before vm → Fine before (prim_over vm)
  unfolding prim_over
  prim_over-Fine vm f =
      pop_then-Fine vm
        (λ b vm. pop_then vm (λ a vm. forth_push (forth_push (forth_push vm (a)) (b)) (a))) f
        (λ b vm f.
          pop_then-Fine vm (λ a vm. forth_push (forth_push (forth_push vm (a)) (b)) (a)) f
            (λ a vm f.
              forth_push-Fine (forth_push (forth_push vm (a)) (b)) (a)
                (forth_push-Fine (forth_push vm (a)) (b) (forth_push-Fine vm (a) f))))

  pub prim_eq-Fine : (vm : Vm) → Fine before vm → Fine before (prim_eq vm)
  unfolding prim_eq
  prim_eq-Fine vm f =
      pop_then-Fine vm (λ b vm. pop_then vm (λ a vm. forth_push vm (flag (a == b)))) f
        (λ b vm f.
          pop_then-Fine vm (λ a vm. forth_push vm (flag (a == b))) f
            (λ a vm f. forth_push-Fine vm (flag (a == b)) f))

  pub prim_lt-Fine : (vm : Vm) → Fine before vm → Fine before (prim_lt vm)
  unfolding prim_lt
  prim_lt-Fine vm f =
      pop_then-Fine vm (λ b vm. pop_then vm (λ a vm. forth_push vm (flag (signed_lt a b)))) f
        (λ b vm f.
          pop_then-Fine vm (λ a vm. forth_push vm (flag (signed_lt a b))) f
            (λ a vm f. forth_push-Fine vm (flag (signed_lt a b)) f))

  pub prim_gt-Fine : (vm : Vm) → Fine before vm → Fine before (prim_gt vm)
  unfolding prim_gt
  prim_gt-Fine vm f =
      pop_then-Fine vm (λ b vm. pop_then vm (λ a vm. forth_push vm (flag (signed_lt b a)))) f
        (λ b vm f.
          pop_then-Fine vm (λ a vm. forth_push vm (flag (signed_lt b a))) f
            (λ a vm f. forth_push-Fine vm (flag (signed_lt b a)) f))

  pub prim_dot-Fine : (vm : Vm) → Fine before vm → Fine before (prim_dot vm)
  unfolding prim_dot
  prim_dot-Fine vm f =
      pop_then-Fine vm (λ a vm. forth_write (forth_write vm (format_int a)) (codes " ")) f
        (λ a vm f.
          forth_write-Fine (forth_write vm (format_int a)) (codes " ")
            (forth_write-Fine vm (format_int a) f))

  pub prim_cr-Fine : (vm : Vm) → Fine before vm → Fine before (prim_cr vm)
  unfolding prim_cr
  prim_cr-Fine vm f = forth_write-Fine vm (10 ∷ []) f

  pub prim_fetch-Fine : (vm : Vm) → Fine before vm → Fine before (prim_fetch vm)
  unfolding prim_fetch
  prim_fetch-Fine vm f =
      pop_then-Fine vm
        (λ addr vm.
          if is_negative addr || leb mem_size addr
          then set_error vm (codes "BAD ADDR")
          else push_cell (get_elem? vm.mem addr) vm)
        f
        (λ addr vm f.
          test-Fine (is_negative addr || leb mem_size addr) (set_error vm (codes "BAD ADDR"))
            (push_cell (get_elem? vm.mem addr) vm) (set_error-Fine vm (codes "BAD ADDR") f)
            (λ low. fetch-Fine vm addr (in_memory addr low) f))

  pub prim_store-Fine : (vm : Vm) → Fine before vm → Fine before (prim_store vm)
  unfolding prim_store
  prim_store-Fine vm f =
      pop_then-Fine vm
        (λ addr vm. pop_then vm (λ val vm.
          if is_negative addr || leb mem_size addr
          then set_error vm (codes "BAD ADDR")
          else store_cell addr val vm))
        f
        (λ addr vm f.
          pop_then-Fine vm
            (λ val vm.
              if is_negative addr || leb mem_size addr
              then set_error vm (codes "BAD ADDR")
              else store_cell addr val vm)
            f
            (λ val vm f.
              test-Fine (is_negative addr || leb mem_size addr) (set_error vm (codes "BAD ADDR"))
                (store_cell addr val vm) (set_error-Fine vm (codes "BAD ADDR") f)
                (λ low. store-Fine vm addr val (in_memory addr low) f)))

  pub prim_beep-Fine : (vm : Vm) → Fine before vm → Fine before (prim_beep vm)
  unfolding prim_beep
  prim_beep-Fine vm f = call_hook-Fine vm (beep) f
