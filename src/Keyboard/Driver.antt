-- ===== src/Keyboard/Driver.antt =====
-- kernel/drivers/keyboard.c: the ring of scancodes, which the interrupt fills, and polling for a
-- character.
use rave_os.Prelude.{
  ℕ, zero, suc, ◌+◌, ◌%◌, Option, none, some, List, ◌==◌, if◌then◌else◌, get_or, set,
}
use rave_os.Keyboard.Scancodes.{Decoder, decode}

-- KBD_BUFFER_SIZE
abbrev pub kbd_buffer_size : ℕ
kbd_buffer_size = 32

-- `kbd_buffer`, `kbd_head`, `kbd_tail` and the decoder's flags
pub record Keyboard : Type 0 where
  pub buffer : List ℕ
  pub head : ℕ
  pub tail : ℕ
  pub decoder : Decoder

-- `keyboard_irq_push_scancode`
unfoldable pub push_scancode : ℕ → Keyboard → Keyboard
push_scancode scancode kb =
    let next = (kb.head + 1) % kbd_buffer_size in
    if next == kb.tail
    then kb
    else record kb { buffer = set kb.buffer kb.head scancode; head = next }

-- `kbd_buffer_pop`
unfoldable pub pop : Keyboard → Option (ℕ × Keyboard)
pop kb =
    if kb.tail == kb.head
    then none
    else some (get_or kb.buffer kb.tail 0, record kb { tail = (kb.tail + 1) % kbd_buffer_size })

-- `keyboard_poll_char`; each round uses one unit of fuel.
unfoldable pub poll_char : ℕ → Keyboard → Option ℕ × Keyboard
unfolding pop decode
poll_char zero kb = (none, kb)
poll_char (suc fuel) kb = elim (pop kb) [
  | none ↦ (none, kb)
  | some (sc, kb') ↦
      let r = decode sc kb'.decoder in
      elim r.0 [
        | some c ↦ (some c, record kb' { decoder = r.1 })
        | none ↦ poll_char fuel (record kb' { decoder = r.1 })
      ]
]
