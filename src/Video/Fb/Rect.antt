-- ===== src/Video/Fb/Rect.antt =====
-- Which pixels `fb_draw_rect` and `fb_clear` paint.
use chef_os.Prelude.{
  ℕ, zero, suc, ◌+◌, ◌*◌, ◌/◌, ◌%◌, ◌≤◌, ◌<◌, ◌≡◌, refl, ap, ◌∙◌, sym, ◌==◌, leb, ltb,
  if◌then◌else◌, Bool, ◌&&◌, u32, arith,
}
use Prim.Native.Nat.{min, max}
use native.Mathlib.Nat.{
  div-add-mod', mod-lt, mul-add-div_right, mul-add-mod_self_right, div-eq_of_lt, mod-eq_of_lt,
}
use chef_os.Video.Fb.{FbInfo, poke, row_loop, rect_loop, fb_clear}

-- The column and the row of index `k` on a screen of that width.
abbrev pub column : (width k : ℕ) → ℕ
column width k = k % width

abbrev pub row : (width k : ℕ) → ℕ
row width k = k / width

module _ (width k i j : ℕ) (lt : i < width) where
  cell_row : k ≡ j * width + i → row width k ≡ j
  cell_row e =
      ap (λ n. n / width) e
      ∙ mul-add-div_right {m = width} (omega arith) j i
      ∙ omega (arith, div-eq_of_lt {n = i} {m = width} lt)

  cell_column : k ≡ j * width + i → column width k ≡ i
  cell_column e =
      ap (λ n. n % width) e ∙ mul-add-mod_self_right j width i ∙ mod-eq_of_lt {n = i} {m = width} lt

  cell_index : row width k ≡ j → column width k ≡ i → k ≡ j * width + i
  cell_index a b =
      sym (div-add-mod' k width) ∙ ap (λ n. n * width + k % width) a ∙ ap (λ n. j * width + n) b

  -- An index is that of a cell exactly if its row and its column are.
  cell_test : (k == j * width + i) ≡ ((row width k == j) && (column width k == i))
  cell_test =
      generalize (row width k) (column width k) (j * width + i) cell_row cell_column cell_index
    where
      generalize :
          (r c n : ℕ)
          → (k ≡ n → r ≡ j)
          → (k ≡ n → c ≡ i)
          → (r ≡ j → c ≡ i → k ≡ n)
          → (k == n) ≡ ((r == j) && (c == i))
      generalize r c n p q s = ground (arith, p, q, s)

-- `left` cells from column `i` on in row `j`.
abbrev pub in_cells : (left i j r c : ℕ) → Bool
in_cells left i j r c = (r == j) && (leb i c && ltb c (i + left))

row_loop_lem :
    (left i j color k : ℕ) (f : FbInfo)
    → i + left ≤ max i f.width
    → (row_loop left i j color f).backbuffer k
      ≡ (if in_cells left i j (row f.width k) (column f.width k) then color else f.backbuffer k)
unfolding row_loop poke
row_loop_lem zero i j color k f fits = ground arith
row_loop_lem (suc left) i j color k f fits =
    row_loop_lem left (i + 1) j color k (poke (j * f.width + i) color f) (omega arith)
    ∙ rw (cell_test f.width k i j (omega arith))
        (next (row f.width k) (column f.width k) (f.backbuffer k))
  where
    next :
        (r c old : ℕ)
        → (if in_cells left (i + 1) j r c
            then color
            else (if (r == j) && (c == i) then color else old))
          ≡ (if in_cells (suc left) i j r c then color else old)
    next r c old = ground arith

row_loop-width : (left i j color : ℕ) (f : FbInfo) → (row_loop left i j color f).width ≡ f.width
unfolding row_loop poke
row_loop-width zero i j color f = refl
row_loop-width (suc left) i j color f =
    row_loop-width left (i + 1) j color (poke (j * f.width + i) color f)

-- `left` rows from `j` on, of `cells` cells each from column `x` on.
abbrev pub in_rect : (left cells x j r c : ℕ) → Bool
in_rect left cells x j r c = (leb j r && ltb r (j + left)) && (leb x c && ltb c (x + cells))

rect_loop_lem :
    (left cells x j color k : ℕ) (f : FbInfo)
    → x + cells ≤ max x f.width
    → (rect_loop left cells x j color f).backbuffer k ≡ (
        if in_rect left cells x j (row f.width k) (column f.width k) then color else f.backbuffer k)
unfolding rect_loop
rect_loop_lem zero cells x j color k f fits = ground arith
rect_loop_lem (suc left) cells x j color k f fits =
    let g = row_loop cells x j color f in
    let same = row_loop-width cells x j color f in
    rect_loop_lem left cells x (j + 1) color k g (omega (arith, same))
    ∙ rw (same, row_loop_lem cells x j color k f fits)
        (next (row f.width k) (column f.width k) (f.backbuffer k))
  where
    next :
        (r c old : ℕ)
        → (if in_rect left cells x (j + 1) r c
            then color
            else (if in_cells cells x j r c then color else old))
          ≡ (if in_rect (suc left) cells x j r c then color else old)
    next r c old = ground arith

-- The part of the rectangle that lies on the screen; its far sides are `uint32_t` sums.
abbrev pub covers : (x y w h : ℕ) → FbInfo → (k : ℕ) → Bool
covers x y w h f k =
    (leb y (row f.width k) && ltb (row f.width k) (min (u32 (y + h)) f.height))
    && (leb x (column f.width k) && ltb (column f.width k) (u32 (x + w)))

-- `fb_clear` gives the colour to exactly the pixels of the screen.
pub fb_clear_lem :
    (color k : ℕ) (f : FbInfo)
    → 0 < f.width
    → (fb_clear color f).backbuffer k
      ≡ (if ltb (row f.width k) f.height then color else f.backbuffer k)
unfolding fb_clear
fb_clear_lem color k f wide =
    rect_loop_lem f.height f.width 0 0 color k f (omega arith)
    ∙ all (row f.width k) (column f.width k) (f.backbuffer k) (mod-lt k wide)
  where
    all :
        (r c old : ℕ)
        → c < f.width
        → (if in_rect f.height f.width 0 0 r c then color else old)
          ≡ (if ltb r f.height then color else old)
    all r c old lt = ground arith
