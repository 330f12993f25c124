-- ===== src/Drivers/Mouse.antt =====
-- The PS/2 mouse, kernel/src/drivers/ps2_mouse.c. An `int32_t` is its bit pattern. A call of the
-- interrupt handler is given the status byte and the data byte that it reads.
pub mod Setup
use chef_os.Prelude.{
  ℕ, ◌+◌, ◌-◌, ◌/◌, ◌^◌, ◌≤◌, ◌<◌, ◌≡◌, refl, bit_and, bit_or, u8, u32, sub32, ==_iff, ◌==◌, leb,
  Bool, true, not, if◌then◌else◌, arith, Bool-cases, inl, inr,
}
use Prim.Native.Nat.{min}
use chef_os.Prelude.Bits.{passes, passes_at}

pub record MouseState : Type 0 where
  pub x : ℕ
  pub y : ℕ
  pub left_button : Bool
  pub right_button : Bool
  pub middle_button : Bool

-- The static variables: `s_mouse_state`, `s_mouse_cycle`, the three bytes of `s_mouse_bytes`, and
-- the size of the screen.
pub record Mouse : Type 0 where
  pub state : MouseState
  pub cycle : ℕ
  pub byte0 : ℕ
  pub byte1 : ℕ
  pub byte2 : ℕ
  pub max_x : ℕ
  pub max_y : ℕ

-- The static part of `ps2_mouse_init`; its port traffic is in Mouse/Setup.
unfoldable pub mouse_init : (screen_width screen_height : ℕ) → Mouse → Mouse
mouse_init w h m = record m {
  max_x = w;
  max_y = h;
  state = record (m.state) { x = w / 2; y = h / 2 };
}

-- `a <= b` on `int32_t`.
abbrev pub leb_signed : ℕ → ℕ → Bool
leb_signed a b = leb (u32 (a + 2 ^ 31)) (u32 (b + 2 ^ 31))

abbrev pub bit_set : ℕ → ℕ → Bool
bit_set flags mask = not (bit_and flags mask == 0)

-- `if (flags & sign) d |= 0xFFFFFF00;`
abbrev pub sign_extend : Bool → ℕ → ℕ
sign_extend negative d = if negative then bit_or d 0xFFFFFF00 else d

abbrev pub clamp_low : ℕ → ℕ
clamp_low x = if not (leb_signed 0 x) then 0 else x

abbrev pub clamp_high : ℕ → ℕ → ℕ
clamp_high x bound = if leb_signed bound x then sub32 bound 1 else x

-- What the handler does with a whole packet.
unfoldable pub packet : Mouse → MouseState
packet m = record {
  x = clamp_high (clamp_low (u32 (m.state.x + sign_extend (bit_set m.byte0 0x10) m.byte1))) m.max_x;
  y = clamp_high (clamp_low (sub32 m.state.y (sign_extend (bit_set m.byte0 0x20) m.byte2))) m.max_y;
  left_button = bit_set m.byte0 0x01;
  right_button = bit_set m.byte0 0x02;
  middle_button = bit_set m.byte0 0x04;
}

-- `s_mouse_bytes[i] = byte`
unfoldable pub store_byte : ℕ → ℕ → Mouse → Mouse
store_byte i byte m = record m {
  byte0 = if i == 0 then byte else m.byte0;
  byte1 = if i == 1 then byte else m.byte1;
  byte2 = if i == 2 then byte else m.byte2;
}

unfoldable pub mouse_callback : (status byte : ℕ) → Mouse → Mouse
unfolding store_byte packet
mouse_callback status byte m =
    let stored = store_byte m.cycle byte m in
    let next = u8 (m.cycle + 1) in
    if not (bit_set status 0x20)
    then m
    else if next == 3
    then record stored { cycle = 0; state = packet stored }
    else record stored { cycle = next }

unfoldable pub get_state : Mouse → MouseState
get_state m = m.state

-- The pointer is on the screen, and a packet is at its first, second or third byte.
pub record IsValid (m : Mouse) : Type 0 where
  pub on_x : m.state.x < m.max_x
  pub on_y : m.state.y < m.max_y
  pub small_x : m.max_x ≤ 2 ^ 30
  pub small_y : m.max_y ≤ 2 ^ 30
  pub in_packet : m.cycle < 3
  pub byte1_fits : m.byte1 < 256
  pub byte2_fits : m.byte2 < 256

extend_table : passes 256 (λ d. bit_or d 0xFFFFFF00 == d + 0xFFFFFF00) ≡ true
unfolding passes
extend_table = refl

extend-eq : (d : ℕ) → d < 256 → bit_or d 0xFFFFFF00 ≡ d + 0xFFFFFF00
extend-eq d lt = (==_iff _ _).0 (passes_at 256 _ d extend_table lt)

module _ (x d bound : ℕ) (negative : Bool) (on : x < bound) (small : bound ≤ 2 ^ 30)
    (lt : d < 256) where
  -- One axis moved to the right, or down, by the signed byte.
  moved_right :
      clamp_high (clamp_low (u32 (x + sign_extend negative d))) bound
      ≡ min (if negative then x + d - 256 else x + d) (bound - 1)
  moved_right = ground (arith, extend-eq d lt)

  -- And the other way.
  moved_left :
      clamp_high (clamp_low (sub32 x (sign_extend negative d))) bound
      ≡ min (if negative then x + (256 - d) else x - d) (bound - 1)
  moved_left = ground (arith, extend-eq d lt)

stored_fits : (m : Mouse) (byte : ℕ) → IsValid m → byte < 256 → IsValid (store_byte m.cycle byte m)
unfolding store_byte
stored_fits m byte v lt = ground arith

packet-on_screen : (m : Mouse) → IsValid m → ((packet m).x < m.max_x) × ((packet m).y < m.max_y)
unfolding packet
packet-on_screen m v = (
  omega (
    arith,
    v.on_x,
    moved_right m.state.x m.byte1 m.max_x (bit_set m.byte0 0x10) v.on_x v.small_x v.byte1_fits,
  ),
  omega (
    arith,
    v.on_y,
    moved_left m.state.y m.byte2 m.max_y (bit_set m.byte0 0x20) v.on_y v.small_y v.byte2_fits,
  ),
)

-- The handler keeps the pointer on the screen and the packet position below 3, on every status and
-- data byte.
pub mouse_callback-IsValid :
    (status byte : ℕ) (m : Mouse) → IsValid m → byte < 256 → IsValid (mouse_callback status byte m)
unfolding mouse_callback
mouse_callback-IsValid status byte m v lt = elim (Bool-cases (bit_set status 0x20)) [
  | inr other ↦ rw other v
  | inl data_byte ↦ rw data_byte (elim (Bool-cases (u8 (m.cycle + 1) == 3)) [
    | inl full ↦
        let p = packet-on_screen (store_byte m.cycle byte m) (stored_fits m byte v lt) in
        rw full (record {
          on_x = p.0;
          on_y = p.1;
          small_x = v.small_x;
          small_y = v.small_y;
          in_packet = omega arith;
          byte1_fits = (stored_fits m byte v lt).byte1_fits;
          byte2_fits = (stored_fits m byte v lt).byte2_fits;
        })
    | inr part ↦ rw part (record {
      on_x = v.on_x;
      on_y = v.on_y;
      small_x = v.small_x;
      small_y = v.small_y;
      in_packet = ground (arith, v.in_packet);
      byte1_fits = (stored_fits m byte v lt).byte1_fits;
      byte2_fits = (stored_fits m byte v lt).byte2_fits;
    })
  ])
]

-- Where the pointer comes to rest: moved by the packet's signed deltas, the vertical one inverted,
-- and held on the screen.
abbrev pub rest_x : Mouse → (flags dx : ℕ) → ℕ
rest_x m flags dx =
    min (if bit_set flags 0x10 then m.state.x + dx - 256 else m.state.x + dx) (m.max_x - 1)

abbrev pub rest_y : Mouse → (flags dy : ℕ) → ℕ
rest_y m flags dy =
    min (if bit_set flags 0x20 then m.state.y + (256 - dy) else m.state.y - dy) (m.max_y - 1)

-- Three data bytes from the start of a packet move the pointer by the signed deltas, held on the
-- screen, set the buttons from the first byte and end at the start of a packet.
pub mouse_packet :
    (m : Mouse) (s0 s1 s2 flags dx dy : ℕ)
    → IsValid m
    → m.cycle ≡ 0
    → dx < 256
    → dy < 256
    → bit_set s0 0x20 ≡ true
    → bit_set s1 0x20 ≡ true
    → bit_set s2 0x20 ≡ true
    → let after = mouse_callback s2 dy (mouse_callback s1 dx (mouse_callback s0 flags m)) in
      (after.state.x ≡ rest_x m flags dx)
      × (after.state.y ≡ rest_y m flags dy)
      × (after.state.left_button ≡ bit_set flags 0x01)
      × (after.state.right_button ≡ bit_set flags 0x02)
      × (after.state.middle_button ≡ bit_set flags 0x04)
      × (after.cycle ≡ 0)
unfolding mouse_callback
mouse_packet m s0 s1 s2 flags dx dy v start hx hy d0 d1 d2 =
    rw (d0, d1, d2, start)
      (
        moved_right m.state.x dx m.max_x (bit_set flags 0x10) v.on_x v.small_x hx,
        moved_left m.state.y dy m.max_y (bit_set flags 0x20) v.on_y v.small_y hy,
        refl,
        refl,
        refl,
        refl,
      )
