-- ===== src/Keyboard/Tests.antt =====
-- Both shift keys go down, one comes up, and a letter is typed.
use rave_os.Prelude.{ℕ, false, List, [], ◌∷◌, ◌++◌, replicate, ◌≡◌, refl, arith}
use rave_os.Keyboard.Scancodes.{Decoder}
use rave_os.Keyboard.Driver.{Keyboard, push_scancode, poll_char}
use rave_os.Keyboard.Buffer.{Holds, queued, first_char, push_scancode-Holds, poll_char-Holds}

abbrev calm : Decoder
calm = record { lshift_held = false; rshift_held = false; pending_extended = false }

abbrev typed : List ℕ
typed = 0x2A ∷ 0x36 ∷ 0xAA ∷ 0x1E ∷ []

-- The four scancodes wait across the end of the buffer.
abbrev waiting : Keyboard
waiting = record {
  buffer = 0xAA ∷ 0x1E ∷ (replicate 28 0 ++ (0x2A ∷ 0x36 ∷ []));
  head = 2;
  tail = 30;
  decoder = calm;
}

waiting-Holds : Holds waiting typed
waiting-Holds = (refl, omega arith, omega arith, refl, (refl, (refl, (refl, (refl, tt)))))

push_scancode-Holds_example : Holds (push_scancode 0x9E waiting) (queued 0x9E typed)
push_scancode-Holds_example = push_scancode-Holds 0x9E waiting typed waiting-Holds

poll_char-Holds_example :
    (let r = poll_char 32 waiting in
      let s = first_char calm typed in (r.0 ≡ s.0) × (r.1.decoder ≡ s.1) × Holds r.1 s.2)
poll_char-Holds_example = poll_char-Holds 32 waiting typed (omega arith) waiting-Holds
