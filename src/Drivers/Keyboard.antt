-- ===== src/Drivers/Keyboard.antt =====
-- The PS/2 keyboard, kernel/src/drivers/ps2_kbd.c. The state is `s_last_char`; a key that has a
-- character is echoed by `kprintf`, and the echo is the second part of the callback's result.
use chef_os.Prelude.{
  ℕ, ◌<◌, ◌≡◌, refl, bit_and, true, not, ◌&&◌, ◌||◌, ◌==◌, ltb, List, [], ◌∷◌, Option, none, some,
  if◌then◌else◌, get_or, arith,
}
use chef_os.Prelude.Bits.{passes, passes_at}

-- The characters of the scancodes below 58; the rest of the 128 entries are 0.
unfoldable pub kbd_us : List ℕ
kbd_us =
    0 ∷ 27 ∷ 49 ∷ 50 ∷ 51 ∷ 52 ∷ 53 ∷ 54 ∷ 55 ∷ 56 ∷ 57 ∷ 48 ∷ 45 ∷ 61 ∷ 8 ∷ 9 ∷ 113 ∷ 119 ∷ 101
    ∷ 114 ∷ 116 ∷ 121 ∷ 117 ∷ 105 ∷ 111 ∷ 112 ∷ 91 ∷ 93 ∷ 10 ∷ 0 ∷ 97 ∷ 115 ∷ 100 ∷ 102 ∷ 103 ∷ 104
    ∷ 106 ∷ 107 ∷ 108 ∷ 59 ∷ 39 ∷ 96 ∷ 0 ∷ 92 ∷ 122 ∷ 120 ∷ 99 ∷ 118 ∷ 98 ∷ 110 ∷ 109 ∷ 44 ∷ 46 ∷ 47
    ∷ 0 ∷ 42 ∷ 0 ∷ 32 ∷ []

unfoldable pub char_of : ℕ → ℕ
unfolding kbd_us
char_of scancode = get_or kbd_us scancode 0

-- `keyboard_callback` for the byte read from port 0x60.
unfoldable pub keyboard_callback : ℕ → (last : ℕ) → ℕ × List ℕ
unfolding char_of
keyboard_callback scancode last =
    if bit_and scancode 0x80 == 0 && not (char_of scancode == 0)
    then (char_of scancode, char_of scancode ∷ [])
    else (last, [])

-- `keyboard_get_last_char`: the character, and the state after.
unfoldable pub get_last_char : ℕ → ℕ × ℕ
get_last_char last = (last, 0)

-- The keys pressed one after another, with no read between them.
unfoldable pub press_all : List ℕ → ℕ → ℕ
unfolding keyboard_callback
press_all [] last = last
press_all (s ∷ ss) last = press_all ss (keyboard_callback s last).0

-- The last key of the list that has a character.
unfoldable pub last_key : List ℕ → Option ℕ
last_key [] = none
last_key (s ∷ ss) =
    let rest = last_key ss in
    elim rest [
      | some c ↦ some c
      | none ↦ if ltb s 0x80 && not (char_of s == 0) then some (char_of s) else none
    ]

release_table :
    passes 256
      (λ s. (bit_and s 0x80 == 0) && ltb s 0x80 || not (bit_and s 0x80 == 0) && not (ltb s 0x80))
    ≡ true
unfolding passes
release_table = refl

abbrev pub AllBytes : List ℕ → Type 0
AllBytes [] = Unit
AllBytes (s ∷ ss) = (s < 256) × AllBytes ss

abbrev pub or_else : Option ℕ → ℕ → ℕ
or_else none c = c
or_else (some c) d = c

press_all-last_key :
    (ss : List ℕ) (last : ℕ) → AllBytes ss → press_all ss last ≡ or_else (last_key ss) last
unfolding press_all last_key
press_all-last_key [] last h = refl
press_all-last_key (s ∷ ss) last h = ground (
  arith,
  press_all-last_key ss (keyboard_callback s last).0 h.1,
  passes_at 256 _ s release_table h.0,
)

-- After any keys, the next read returns the character of the last press of a key that has one, the
-- release codes and the keys without a character left out, or what was there before; a second read
-- returns 0.
pub get_last_char-press_all :
    (ss : List ℕ) (last : ℕ)
    → AllBytes ss
    → ((get_last_char (press_all ss last)).0 ≡ or_else (last_key ss) last)
      × ((get_last_char (get_last_char (press_all ss last)).1).0 ≡ 0)
unfolding get_last_char
get_last_char-press_all ss last h = (press_all-last_key ss last h, refl)
