-- ===== src/KeyCodes.antt =====
-- src/input/keyboard.h: the virtual key codes that GameStream wants, indexed by the key codes of
-- linux/input.h.
use moonlight_embedded_crash.Prelude.{ℕ, List, [], ◌∷◌}

unfoldable pub key_codes : List ℕ
key_codes =
    0 ∷ 0x1b ∷ 0x31 ∷ 0x32 ∷ 0x33 ∷ 0x34 ∷ 0x35 ∷ 0x36 ∷ 0x37 ∷ 0x38 ∷ 0x39 ∷ 0x30 ∷ 0xbd ∷ 0xbb
    ∷ 0x08 ∷ 0x09 ∷ 0x51 ∷ 0x57 ∷ 0x45 ∷ 0x52 ∷ 0x54 ∷ 0x59 ∷ 0x55 ∷ 0x49 ∷ 0x4f ∷ 0x50 ∷ 0xdb
    ∷ 0xdd ∷ 0x0d ∷ 0x11 ∷ 0x41 ∷ 0x53 ∷ 0x44 ∷ 0x46 ∷ 0x47 ∷ 0x48 ∷ 0x4a ∷ 0x4b ∷ 0x4c ∷ 0xba
    ∷ 0xde ∷ 0xc0 ∷ 0x10 ∷ 0xdc ∷ 0x5a ∷ 0x58 ∷ 0x43 ∷ 0x56 ∷ 0x42 ∷ 0x4e ∷ 0x4d ∷ 0xbc ∷ 0xbe
    ∷ 0xbf ∷ 0x10 ∷ 0x6a ∷ 0x12 ∷ 0x20 ∷ 0x14 ∷ 0x70 ∷ 0x71 ∷ 0x72 ∷ 0x73 ∷ 0x74 ∷ 0x75 ∷ 0x76
    ∷ 0x77 ∷ 0x78 ∷ 0x79 ∷ 0x90 ∷ 0x91 ∷ 0x67 ∷ 0x68 ∷ 0x69 ∷ 0x6d ∷ 0x64 ∷ 0x65 ∷ 0x66 ∷ 0x6b
    ∷ 0x61 ∷ 0x62 ∷ 0x63 ∷ 0x60 ∷ 0x6e ∷ 0 ∷ 0 ∷ 0 ∷ 0x7a ∷ 0x7b ∷ 0 ∷ 0xf1 ∷ 0xf2 ∷ 0 ∷ 0 ∷ 0 ∷ 0
    ∷ 0x0d ∷ 0x11 ∷ 0x6f ∷ 0x2c ∷ 0x12 ∷ 0 ∷ 0x24 ∷ 0x26 ∷ 0x21 ∷ 0x25 ∷ 0x27 ∷ 0x23 ∷ 0x28 ∷ 0x22
    ∷ 0x9b ∷ 0x2e ∷ 0 ∷ 0 ∷ 0 ∷ 0 ∷ 0 ∷ 0 ∷ 0 ∷ 0x13 ∷ 0 ∷ []
