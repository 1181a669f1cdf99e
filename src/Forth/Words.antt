-- ===== src/Forth/Words.antt =====
-- kernel/forth/forth.c: the primitive words and their table. A test for a negative value is written
-- out, though a negative cell also exceeds each upper bound.
use rave_os.Prelude.{
  ℕ, ◌+◌, ◌-◌, ◌*◌, ◌%◌, ◌^◌, Bool, List, [], ◌∷◌, ◌==◌, ◌&&◌, ◌||◌, ltb, leb, if◌then◌else◌,
  get_elem?, set, length, Option, none, some, true, codes,
}
use rave_os.Forth.Numbers.{is_negative, signed_lt, signed_div, format_int}
use rave_os.Forth.Vm.{
  Vm, beep, gate_on, gate_off, ring_off, arp_off, voice, wave, duty, ona, filter_cutoff, filter_res,
  filter_mode, filter_route, ring_partner, arp_on, arp_rate, adsr, arp_note, mem_size, forth_write,
  set_error, forth_push, pop_then, call_hook,
}

-- Forth's truth values: -1 and 0.
abbrev pub flag : Bool → ℕ
flag b = if b then 2 ^ 32 - 1 else 0

unfoldable pub prim_add : Vm → Vm
prim_add vm = pop_then vm (λ b vm. pop_then vm (λ a vm. forth_push vm ((a + b) % 2 ^ 32)))

unfoldable pub prim_sub : Vm → Vm
prim_sub vm =
    pop_then vm (λ b vm. pop_then vm (λ a vm. forth_push vm ((a + (2 ^ 32 - b)) % 2 ^ 32)))

unfoldable pub prim_mul : Vm → Vm
prim_mul vm = pop_then vm (λ b vm. pop_then vm (λ a vm. forth_push vm (a * b % 2 ^ 32)))

unfoldable pub prim_div : Vm → Vm
prim_div vm = pop_then vm (λ b vm. pop_then vm (λ a vm.
    if b == 0
    then set_error vm (codes "DIV BY ZERO")
    else if a == 2 ^ 31 && b == 2 ^ 32 - 1
    then set_error vm (codes "DIV OVERFLOW")
    else forth_push vm (signed_div a b)))

unfoldable pub prim_dup : Vm → Vm
prim_dup vm = pop_then vm (λ a vm. forth_push (forth_push vm a) a)

unfoldable pub prim_drop : Vm → Vm
prim_drop vm = pop_then vm (λ a vm. vm)

unfoldable pub prim_swap : Vm → Vm
prim_swap vm = pop_then vm (λ b vm. pop_then vm (λ a vm. forth_push (forth_push vm b) a))

unfoldable pub prim_over : Vm → Vm
prim_over vm =
    pop_then vm (λ b vm. pop_then vm (λ a vm. forth_push (forth_push (forth_push vm a) b) a))

unfoldable pub prim_eq : Vm → Vm
prim_eq vm = pop_then vm (λ b vm. pop_then vm (λ a vm. forth_push vm (flag (a == b))))

unfoldable pub prim_lt : Vm → Vm
prim_lt vm = pop_then vm (λ b vm. pop_then vm (λ a vm. forth_push vm (flag (signed_lt a b))))

unfoldable pub prim_gt : Vm → Vm
prim_gt vm = pop_then vm (λ b vm. pop_then vm (λ a vm. forth_push vm (flag (signed_lt b a))))

unfoldable pub prim_dot : Vm → Vm
prim_dot vm = pop_then vm (λ a vm. forth_write (forth_write vm (format_int a)) (codes " "))

unfoldable pub prim_cr : Vm → Vm
prim_cr vm = forth_write vm (10 ∷ [])

-- A cell that was read.
abbrev pub push_cell : Option ℕ → Vm → Vm
push_cell none vm = record vm { fault = true }
push_cell (some v) vm = forth_push vm v

unfoldable pub prim_fetch : Vm → Vm
prim_fetch vm = pop_then vm (λ addr vm.
    if is_negative addr || leb mem_size addr
    then set_error vm (codes "BAD ADDR")
    else push_cell (get_elem? vm.mem addr) vm)

-- A write to a cell.
abbrev pub store_cell : ℕ → ℕ → Vm → Vm
store_cell addr val vm =
    if ltb addr (length vm.mem)
    then record vm { mem = set vm.mem addr val }
    else record vm { fault = true }

unfoldable pub prim_store : Vm → Vm
prim_store vm = pop_then vm (λ addr vm. pop_then vm (λ val vm.
    if is_negative addr || leb mem_size addr
    then set_error vm (codes "BAD ADDR")
    else store_cell addr val vm))

unfoldable pub prim_beep : Vm → Vm
prim_beep vm = call_hook vm beep

unfoldable pub prim_synth_voice : Vm → Vm
prim_synth_voice vm = pop_then vm (λ n vm.
    if is_negative n || leb 8 n then set_error vm (codes "BAD VOICE") else call_hook vm (voice n))

unfoldable pub prim_synth_wave : Vm → Vm
prim_synth_wave vm = pop_then vm (λ n vm.
    if is_negative n || ltb 3 n then set_error vm (codes "BAD WAVE") else call_hook vm (wave n))

unfoldable pub prim_synth_duty : Vm → Vm
prim_synth_duty vm = pop_then vm (λ n vm. call_hook vm (duty n))

unfoldable pub prim_synth_ona : Vm → Vm
prim_synth_ona vm = pop_then vm (λ n vm.
    if is_negative n || (ltb n 1 || ltb 88 n)
    then set_error vm (codes "BAD ONA")
    else call_hook vm (ona n))

unfoldable pub prim_synth_adsr : Vm → Vm
prim_synth_adsr vm = pop_then vm (λ r vm.
    pop_then vm (λ s vm. pop_then vm (λ d vm. pop_then vm (λ a vm. call_hook vm (adsr a d s r)))))

unfoldable pub prim_synth_gate_on : Vm → Vm
prim_synth_gate_on vm = call_hook vm gate_on

unfoldable pub prim_synth_gate_off : Vm → Vm
prim_synth_gate_off vm = call_hook vm gate_off

unfoldable pub prim_synth_filter_cutoff : Vm → Vm
prim_synth_filter_cutoff vm = pop_then vm (λ n vm. call_hook vm (filter_cutoff n))

unfoldable pub prim_synth_filter_res : Vm → Vm
prim_synth_filter_res vm = pop_then vm (λ n vm. call_hook vm (filter_res n))

unfoldable pub prim_synth_filter_mode : Vm → Vm
prim_synth_filter_mode vm = pop_then vm (λ n vm. call_hook vm (filter_mode n))

unfoldable pub prim_synth_filter_route : Vm → Vm
prim_synth_filter_route vm = pop_then vm (λ n vm. call_hook vm (filter_route n))

unfoldable pub prim_synth_ring_partner : Vm → Vm
prim_synth_ring_partner vm = pop_then vm (λ n vm.
    if is_negative n || ltb 7 n
    then set_error vm (codes "BAD PARTNER")
    else call_hook vm (ring_partner n))

unfoldable pub prim_synth_ring_off : Vm → Vm
prim_synth_ring_off vm = call_hook vm ring_off

unfoldable pub prim_synth_arp_note : Vm → Vm
prim_synth_arp_note vm = pop_then vm (λ slot vm. pop_then vm (λ note vm.
    if is_negative slot || ltb 3 slot
    then set_error vm (codes "BAD ARP SLOT")
    else if is_negative note || (ltb note 1 || ltb 88 note)
    then set_error vm (codes "BAD ARP NOTE")
    else call_hook vm (arp_note note slot)))

unfoldable pub prim_synth_arp_on : Vm → Vm
prim_synth_arp_on vm = pop_then vm (λ n vm.
    if is_negative n || (ltb n 2 || ltb 4 n)
    then set_error vm (codes "BAD ARP COUNT")
    else call_hook vm (arp_on n))

unfoldable pub prim_synth_arp_off : Vm → Vm
prim_synth_arp_off vm = call_hook vm arp_off

unfoldable pub prim_synth_arp_rate : Vm → Vm
prim_synth_arp_rate vm = pop_then vm (λ n vm. call_hook vm (arp_rate n))

-- `struct forth_word`
pub record Primitive : Type 0 where
  pub name : List ℕ
  pub fn : Vm → Vm

abbrev pub primitive : List ℕ → (Vm → Vm) → Primitive
primitive name fn = record { name = name; fn = fn }

unfoldable pub primitives : List Primitive
primitives =
    primitive (codes "+") prim_add
    ∷ primitive (codes "-") prim_sub
    ∷ primitive (codes "*") prim_mul
    ∷ primitive (codes "/") prim_div
    ∷ primitive (codes "DUP") prim_dup
    ∷ primitive (codes "DROP") prim_drop
    ∷ primitive (codes "SWAP") prim_swap
    ∷ primitive (codes "OVER") prim_over
    ∷ primitive (codes "=") prim_eq
    ∷ primitive (codes "<") prim_lt
    ∷ primitive (codes ">") prim_gt
    ∷ primitive (codes ".") prim_dot
    ∷ primitive (codes "CR") prim_cr
    ∷ primitive (codes "@") prim_fetch
    ∷ primitive (codes "!") prim_store
    ∷ primitive (codes "BEEP") prim_beep
    ∷ primitive (codes "VOICE") prim_synth_voice
    ∷ primitive (codes "WAVE") prim_synth_wave
    ∷ primitive (codes "DUTY") prim_synth_duty
    ∷ primitive (codes "ONA") prim_synth_ona
    ∷ primitive (codes "ADSR") prim_synth_adsr
    ∷ primitive (codes "GATE-ON") prim_synth_gate_on
    ∷ primitive (codes "GATE-OFF") prim_synth_gate_off
    ∷ primitive (codes "FILTER-CUTOFF") prim_synth_filter_cutoff
    ∷ primitive (codes "FILTER-RES") prim_synth_filter_res
    ∷ primitive (codes "FILTER-MODE") prim_synth_filter_mode
    ∷ primitive (codes "FILTER-ROUTE") prim_synth_filter_route
    ∷ primitive (codes "RING-PARTNER") prim_synth_ring_partner
    ∷ primitive (codes "RING-OFF") prim_synth_ring_off
    ∷ primitive (codes "ARP-NOTE") prim_synth_arp_note
    ∷ primitive (codes "ARP-ON") prim_synth_arp_on
    ∷ primitive (codes "ARP-OFF") prim_synth_arp_off
    ∷ primitive (codes "ARP-RATE") prim_synth_arp_rate
    ∷ []
