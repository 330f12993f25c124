-- ===== src/Compositor/Surface/Words.antt =====
-- Which words one drawing call on a surface writes.
use chef_os.Prelude.{
  ℕ, zero, suc, ◌+◌, ◌*◌, ◌^◌, ◌≤◌, ◌<◌, ◌≡◌, refl, ◌∙◌, if◌then◌else◌, Bool, true, false, ◌&&◌,
  List, [], ◌∷◌, get_or, u32, arith, Bool-cases, inl, inr,
}
use Prim.Native.Nat.{max}
use native.Mathlib.Nat.{mul-le-mul_right}
use chef_os.Video.Fb.{glyph_bit, glyph_of}
use chef_os.Compositor.Surface.{
  Pixels, Surface, set_pixel, clear_loop, row_pixels, rect_pixels, on_axis, dot, char_row,
  char_rows, draw_string_pixels,
}

-- From index `n` on the words are the same.
abbrev pub SameFrom : ℕ → (p q : Pixels) → Type 0
SameFrom n p q = (k : ℕ) → n ≤ k → q k ≡ p k

pub SameFrom-trans : (n : ℕ) (p q r : Pixels) → SameFrom n p q → SameFrom n q r → SameFrom n p r
SameFrom-trans n p q r a b k le = b k le ∙ a k le

set_pixel-SameFrom : (n i color : ℕ) (p : Pixels) → i < n → SameFrom n p (set_pixel i color p)
unfolding set_pixel
set_pixel-SameFrom n i color p lt k le = ground arith

choose-SameFrom :
    (n : ℕ) (b : Bool) (p q r : Pixels)
    → SameFrom n p q
    → SameFrom n p r
    → SameFrom n p (if b then q else r)
choose-SameFrom n true p q r a c = a
choose-SameFrom n false p q r a c = c

-- The word of a cell lies inside.
cell_inside : (width height x y : ℕ) → x < width → y < height → y * width + x < width * height
cell_inside width height x y hx hy =
    omega (arith, mul-le-mul_right {m = suc y} {n = height} width hy)

pub clear_loop-SameFrom :
    (n left i color : ℕ) (p : Pixels) → i + left ≤ n → SameFrom n p (clear_loop left i color p)
unfolding clear_loop
clear_loop-SameFrom n zero i color p le = λ k h. refl
clear_loop-SameFrom n (suc left) i color p le =
    SameFrom-trans n p (set_pixel i color p) _ (set_pixel-SameFrom n i color p (omega arith))
      (clear_loop-SameFrom n left (i + 1) color (set_pixel i color p) (omega arith))

module _ (s : Surface) (small : s.width * s.height < 2 ^ 32) where
  abbrev pub size : ℕ
  size = s.width * s.height

  cell-SameFrom :
      (x y color : ℕ) (p : Pixels)
      → x < s.width
      → y < s.height
      → SameFrom size p (set_pixel (u32 (y * s.width + x)) color p)
  cell-SameFrom x y color p hx hy =
      let inside = cell_inside s.width s.height x y hx hy in
      set_pixel-SameFrom size (u32 (y * s.width + x)) color p (omega (arith, inside, small))

  row_pixels-SameFrom :
      (left i j color : ℕ) (p : Pixels)
      → i + left ≤ max i s.width
      → j < s.height
      → SameFrom size p (row_pixels left i j color s.width p)
  unfolding row_pixels
  row_pixels-SameFrom zero i j color p fits hj = λ k h. refl
  row_pixels-SameFrom (suc left) i j color p fits hj =
      SameFrom-trans size p _ _ (cell-SameFrom i j color p (omega arith) hj)
        (row_pixels-SameFrom left (i + 1) j color _ (omega arith) hj)

  pub rect_pixels-SameFrom :
      (left cells x j color : ℕ) (p : Pixels)
      → x + cells ≤ max x s.width
      → j + left ≤ max j s.height
      → SameFrom size p (rect_pixels left cells x j color s.width p)
  unfolding rect_pixels
  rect_pixels-SameFrom zero cells x j color p wide tall = λ k h. refl
  rect_pixels-SameFrom (suc left) cells x j color p wide tall =
      SameFrom-trans size p _ _ (row_pixels-SameFrom cells x j color p wide (omega arith))
        (rect_pixels-SameFrom left cells x (j + 1) color _ wide (omega arith))

  dot-SameFrom : (px py fg : ℕ) (p : Pixels) → SameFrom size p (dot px py fg s p)
  unfolding dot
  dot-SameFrom px py fg p = elim (Bool-cases (on_axis px s.width && on_axis py s.height)) [
    | inl on ↦ rw on (cell-SameFrom px py fg p (ground arith) (ground arith))
    | inr off ↦ rw off (λ k h. refl)
  ]

  char_row-SameFrom :
      (left col bits x py fg : ℕ) (p : Pixels)
      → SameFrom size p (char_row left col bits x py fg s p)
  unfolding char_row
  char_row-SameFrom zero col bits x py fg p = λ k h. refl
  char_row-SameFrom (suc left) col bits x py fg p =
      SameFrom-trans size p _ _
        (choose-SameFrom size (glyph_bit bits col) p _ _ (dot-SameFrom (u32 (x + col)) py fg p)
          (λ k h. refl))
        (char_row-SameFrom left (col + 1) bits x py fg _)

  char_rows-SameFrom :
      (left r : ℕ) (glyph : List ℕ) (x y fg : ℕ) (p : Pixels)
      → SameFrom size p (char_rows left r glyph x y fg s p)
  unfolding char_rows
  char_rows-SameFrom zero r glyph x y fg p = λ k h. refl
  char_rows-SameFrom (suc left) r glyph x y fg p =
      SameFrom-trans size p _ _ (char_row-SameFrom 8 0 (get_or glyph r 0) x (u32 (y + r)) fg p)
        (char_rows-SameFrom left (r + 1) glyph x y fg _)

  pub draw_string-SameFrom :
      (str : List ℕ) (x y fg : ℕ) (p : Pixels) → SameFrom size p (draw_string_pixels str x y fg s p)
  unfolding draw_string_pixels
  draw_string-SameFrom [] x y fg p = λ k h. refl
  draw_string-SameFrom (c ∷ str) x y fg p =
      SameFrom-trans size p _ _ (char_rows-SameFrom 16 0 (glyph_of c) x y fg p)
        (draw_string-SameFrom str (u32 (x + 8)) y fg _)
