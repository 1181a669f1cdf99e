-- ===== src/Keyboard/Scancodes.antt =====
-- kernel/drivers/keyboard.c: scancodes and the characters that they stand for.
use rave_os.Prelude.{
  ℕ, ◌%◌, Bool, true, false, Option, none, some, List, [], ◌∷◌, ◌==◌, ◌||◌, leb, not, if◌then◌else◌,
  get_or,
}

-- SC_LSHIFT, SC_RSHIFT, SC_RELEASE_BIT and the prefix of an extended scancode
abbrev pub sc_lshift : ℕ
sc_lshift = 0x2A

abbrev pub sc_rshift : ℕ
sc_rshift = 0x36

abbrev pub sc_release_bit : ℕ
sc_release_bit = 0x80

abbrev pub sc_extended : ℕ
sc_extended = 0xE0

-- `scancode_to_ascii` and `scancode_to_ascii_shift`, by make code
abbrev pub scancode_to_ascii : List ℕ
scancode_to_ascii =
    0 ∷ 27 ∷ 49 ∷ 50 ∷ 51 ∷ 52 ∷ 53 ∷ 54 ∷ 55 ∷ 56 ∷ 57 ∷ 48 ∷ 45 ∷ 61 ∷ 8 ∷ 9 ∷ 113 ∷ 119 ∷ 101
    ∷ 114 ∷ 116 ∷ 121 ∷ 117 ∷ 105 ∷ 111 ∷ 112 ∷ 91 ∷ 93 ∷ 10 ∷ 0 ∷ 97 ∷ 115 ∷ 100 ∷ 102 ∷ 103 ∷ 104
    ∷ 106 ∷ 107 ∷ 108 ∷ 59 ∷ 39 ∷ 96 ∷ 0 ∷ 92 ∷ 122 ∷ 120 ∷ 99 ∷ 118 ∷ 98 ∷ 110 ∷ 109 ∷ 44 ∷ 46 ∷ 47
    ∷ 0 ∷ 42 ∷ 0 ∷ 32 ∷ 0 ∷ []

abbrev pub scancode_to_ascii_shift : List ℕ
scancode_to_ascii_shift =
    0 ∷ 27 ∷ 33 ∷ 64 ∷ 35 ∷ 36 ∷ 37 ∷ 94 ∷ 38 ∷ 42 ∷ 40 ∷ 41 ∷ 95 ∷ 43 ∷ 8 ∷ 9 ∷ 81 ∷ 87 ∷ 69 ∷ 82
    ∷ 84 ∷ 89 ∷ 85 ∷ 73 ∷ 79 ∷ 80 ∷ 123 ∷ 125 ∷ 10 ∷ 0 ∷ 65 ∷ 83 ∷ 68 ∷ 70 ∷ 71 ∷ 72 ∷ 74 ∷ 75 ∷ 76
    ∷ 58 ∷ 34 ∷ 126 ∷ 0 ∷ 124 ∷ 90 ∷ 88 ∷ 67 ∷ 86 ∷ 66 ∷ 78 ∷ 77 ∷ 60 ∷ 62 ∷ 63 ∷ 0 ∷ 42 ∷ 0 ∷ 32
    ∷ 0 ∷ []

-- SCANCODE_TABLE_LEN
abbrev pub scancode_table_len : ℕ
scancode_table_len = 59

-- `lshift_held`, `rshift_held` and `pending_extended`
pub record Decoder : Type 0 where
  pub lshift_held : Bool
  pub rshift_held : Bool
  pub pending_extended : Bool

abbrev pub if_printable : ℕ → Option ℕ
if_printable c = if c == 0 then none else some c

-- KEY_UP, KEY_DOWN, KEY_LEFT, KEY_RIGHT, KEY_HOME, KEY_END and KEY_DELETE
abbrev pub key_up : ℕ
key_up = 0x11

abbrev pub key_down : ℕ
key_down = 0x12

abbrev pub key_left : ℕ
key_left = 0x13

abbrev pub key_right : ℕ
key_right = 0x14

abbrev pub key_home : ℕ
key_home = 0x15

abbrev pub key_end : ℕ
key_end = 0x16

abbrev pub key_delete : ℕ
key_delete = 0x17

-- The keys of the switch over an extended make code.
unfoldable pub extended_key : ℕ → Option ℕ
extended_key code =
    if code == 0x48
    then some key_up
    else if code == 0x50
    then some key_down
    else if code == 0x4B
    then some key_left
    else if code == 0x4D
    then some key_right
    else if code == 0x47
    then some key_home
    else if code == 0x4F
    then some key_end
    else if code == 0x53
    then some key_delete
    else none

-- One round of the loop of `keyboard_poll_char`: the character that it returns, if it does.
unfoldable pub decode : ℕ → Decoder → Option ℕ × Decoder
unfolding extended_key
decode sc d =
    let released = leb sc_release_bit sc in
    let code = sc % 128 in
    if sc == sc_extended
    then (none, record d { pending_extended = true })
    else if d.pending_extended
    then (if released then none else extended_key code, record d { pending_extended = false })
    else if code == sc_lshift
    then (none, record d { lshift_held = not released })
    else if code == sc_rshift
    then (none, record d { rshift_held = not released })
    else if released || leb scancode_table_len code
    then (none, d)
    else (
      if_printable (
          get_or
            (if d.lshift_held || d.rshift_held then scancode_to_ascii_shift else scancode_to_ascii)
            code 0),
      d,
    )
