-- ===== src/Mm/Bitmap/Bits.antt =====
-- The laws of the page bitmap: a bit that is set or cleared reads so, and no other bit changes.
use chef_os.Prelude.{
  ℕ, ◌/◌, ◌%◌, ◌<◌, ◌≡◌, refl, Bool, true, false, not, ◌&&◌, ◌||◌, ◌==◌, if◌then◌else◌, arith,
}
use chef_os.Prelude.Bits.{passes, passes_at}
use chef_os.Mm.Bitmap.{
  Bitmap, IsBytes, byte_set, byte_clear, byte_test, bitmap_set, bitmap_clear, bitmap_test,
}

infix 45 ◌<=>◌
abbrev ◌<=>◌ : Bool → Bool → Bool
true <=> b = b
false <=> b = not b

<=>-eq : (a b : Bool) → (a <=> b) ≡ true → a ≡ b
<=>-eq true b h = ground arith
<=>-eq false b h = ground arith

-- One bit position `k` of one byte, read at `j`.
set_holds : ℕ → ℕ → ℕ → Bool
set_holds b k j = byte_test (byte_set b k) j <=> ((k == j) || byte_test b j)

clear_holds : ℕ → ℕ → ℕ → Bool
clear_holds b k j = byte_test (byte_clear b k) j <=> (not (k == j) && byte_test b j)

set_table : passes 256 (λ b. passes 8 (λ k. passes 8 (λ j. set_holds b k j))) ≡ true
unfolding passes set_holds byte_set byte_test
set_table = refl

clear_table : passes 256 (λ b. passes 8 (λ k. passes 8 (λ j. clear_holds b k j))) ≡ true
unfolding passes clear_holds byte_clear byte_test
clear_table = refl

pub byte_test-byte_set :
    (b k j : ℕ) → b < 256 → k < 8 → j < 8 → byte_test (byte_set b k) j ≡ ((k == j) || byte_test b j)
unfolding set_holds
byte_test-byte_set b k j hb hk hj =
    <=>-eq _ _ (passes_at 8 _ j (passes_at 8 _ k (passes_at 256 _ b set_table hb) hk) hj)

pub byte_test-byte_clear :
    (b k j : ℕ)
    → b < 256
    → k < 8
    → j < 8
    → byte_test (byte_clear b k) j ≡ (not (k == j) && byte_test b j)
unfolding clear_holds
byte_test-byte_clear b k j hb hk hj =
    <=>-eq _ _ (passes_at 8 _ j (passes_at 8 _ k (passes_at 256 _ b clear_table hb) hk) hj)

pub bitmap_set-IsBytes : {bm : Bitmap} (i : ℕ) → IsBytes bm → IsBytes (bitmap_set bm i)
unfolding bitmap_set byte_set
bitmap_set-IsBytes i h j = ground (arith, h j)

pub bitmap_clear-IsBytes : {bm : Bitmap} (i : ℕ) → IsBytes bm → IsBytes (bitmap_clear bm i)
unfolding bitmap_clear byte_clear
bitmap_clear-IsBytes i h j = ground (arith, h j)

-- Setting a bit sets that bit, and no other.
pub bitmap_test-bitmap_set :
    {bm : Bitmap} (i j : ℕ)
    → IsBytes bm
    → bitmap_test (bitmap_set bm i) j ≡ (if i == j then true else bitmap_test bm j)
unfolding bitmap_set bitmap_test
bitmap_test-bitmap_set {bm} i j h =
    ground (arith, h (i / 8), byte_test-byte_set (bm (i / 8)) (i % 8) (j % 8))

-- Clearing a bit clears that bit, and no other.
pub bitmap_test-bitmap_clear :
    {bm : Bitmap} (i j : ℕ)
    → IsBytes bm
    → bitmap_test (bitmap_clear bm i) j ≡ (if i == j then false else bitmap_test bm j)
unfolding bitmap_clear bitmap_test
bitmap_test-bitmap_clear {bm} i j h =
    ground (arith, h (i / 8), byte_test-byte_clear (bm (i / 8)) (i % 8) (j % 8))
