-- ===== src/Mm/Bitmap.antt =====
-- The page bitmap of kernel/src/mm/pmm.c: one bit for each page, eight to a byte. The bytes are
-- memory from `s_bitmap` on, so an index past the end of the bitmap is the memory behind it.
pub mod Bits
use chef_os.Prelude.{
  ℕ, ◌+◌, ◌-◌, ◌/◌, ◌%◌, ◌^◌, ◌<◌, bit_and, bit_or, Bool, ◌==◌, if◌then◌else◌, u8, shl, shr,
}

abbrev pub Bitmap : Type 0
Bitmap = ℕ → ℕ

-- A store of one byte.
abbrev pub store : Bitmap → ℕ → ℕ → Bitmap
store bm a v i = if a == i then v else bm i

-- The byte that `bitmap_set` stores: `b |= 1 << k`, computed as an `int` and cut to a byte.
unfoldable pub byte_set : ℕ → ℕ → ℕ
byte_set b k = u8 (bit_or b (shl 1 k))

-- `b &= ~(1 << k)`; the complement is of a 32-bit `int`.
unfoldable pub byte_clear : ℕ → ℕ → ℕ
byte_clear b k = u8 (bit_and b (2 ^ 32 - 1 - shl 1 k))

-- `(b >> k) & 1`, as a truth value.
unfoldable pub byte_test : ℕ → ℕ → Bool
byte_test b k = bit_and (shr b k) 1 == 1

unfoldable pub bitmap_set : Bitmap → ℕ → Bitmap
bitmap_set bm bit = store bm (bit / 8) (byte_set (bm (bit / 8)) (bit % 8))

unfoldable pub bitmap_clear : Bitmap → ℕ → Bitmap
bitmap_clear bm bit = store bm (bit / 8) (byte_clear (bm (bit / 8)) (bit % 8))

unfoldable pub bitmap_test : Bitmap → ℕ → Bool
bitmap_test bm bit = byte_test (bm (bit / 8)) (bit % 8)

-- Every byte is below 256.
abbrev pub IsBytes : Bitmap → Type 0
IsBytes bm = (i : ℕ) → bm i < 256
