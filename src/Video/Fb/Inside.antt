-- ===== src/Video/Fb/Inside.antt =====
-- Which words one drawing call can change.
use chef_os.Prelude.{
  ℕ, zero, suc, ◌+◌, ◌-◌, ◌*◌, ◌≤◌, ◌<◌, ◌≡◌, refl, ◌∙◌, ◌==◌, leb, ◌||◌, if◌then◌else◌, Bool, true,
  false, u32, sub32, arith, Bool-cases, inl, inr,
}
use Prim.Native.Nat.{max}
use native.Mathlib.Nat.{mul-le-mul_right}
use chef_os.Video.Fb.{
  FbInfo, poke, row_loop, rect_loop, rounds, fb_put_pixel, fb_draw_rect, border_x, border_y,
  fb_draw_rounded_rect,
}

-- `g` has the size of `f` and the same screen, and no word behind the pixels of the buffer differs.
pub record Inside (f g : FbInfo) : Type 0 where
  pub width : g.width ≡ f.width
  pub height : g.height ≡ f.height
  pub pitch : g.pitch ≡ f.pitch
  pub front : g.frontbuffer ≡ f.frontbuffer
  pub behind : (k : ℕ) → f.height * f.width ≤ k → g.backbuffer k ≡ f.backbuffer k

pub Inside-refl : (f : FbInfo) → Inside f f
Inside-refl f = record {
  width = refl;
  height = refl;
  pitch = refl;
  front = refl;
  behind = λ k le. refl;
}

pub Inside-trans : {f g : FbInfo} (h : FbInfo) → Inside f g → Inside g h → Inside f h
Inside-trans h p q = record {
  width = q.width ∙ p.width;
  height = q.height ∙ p.height;
  pitch = q.pitch ∙ p.pitch;
  front = q.front ∙ p.front;
  behind = λ k le. q.behind k (rw (p.height, p.width) le) ∙ p.behind k le;
}

poke-Inside :
    (f : FbInfo) (x y color : ℕ)
    → x < f.width
    → y < f.height
    → Inside f (poke (y * f.width + x) color f)
unfolding poke
poke-Inside f x y color hx hy = record {
  width = refl;
  height = refl;
  pitch = refl;
  front = refl;
  behind = λ k le.
      let before : y * f.width + x < f.height * f.width =
        omega (arith, mul-le-mul_right {m = suc y} {n = f.height} f.width hy) in
      let other : (k == y * f.width + x) ≡ false = ground arith in rw other refl;
}

pub put_pixel-Inside : (x y color : ℕ) (f : FbInfo) → Inside f (fb_put_pixel x y color f)
unfolding fb_put_pixel
put_pixel-Inside x y color f = elim (Bool-cases (leb f.width x || leb f.height y)) [
  | inl out ↦ rw out (Inside-refl f)
  | inr on ↦ rw on (poke-Inside f x y color (ground arith) (ground arith))
]

row_loop-Inside :
    (left i j color : ℕ) (f : FbInfo)
    → i + left ≤ max i f.width
    → j < f.height
    → Inside f (row_loop left i j color f)
unfolding row_loop poke
row_loop-Inside zero i j color f fits hj = Inside-refl f
row_loop-Inside (suc left) i j color f fits hj =
    Inside-trans _ (poke-Inside f i j color (omega arith) hj)
      (row_loop-Inside left (i + 1) j color (poke (j * f.width + i) color f) (omega arith) hj)

pub rect_loop-Inside :
    (left cells x j color : ℕ) (f : FbInfo)
    → x + cells ≤ max x f.width
    → j + left ≤ max j f.height
    → Inside f (rect_loop left cells x j color f)
unfolding rect_loop
rect_loop-Inside zero cells x j color f wide tall = Inside-refl f
rect_loop-Inside (suc left) cells x j color f wide tall =
    let row = row_loop-Inside cells x j color f wide (omega arith) in
    Inside-trans _ row (
      rect_loop-Inside left cells x (j + 1) color (row_loop cells x j color f)
        (omega (arith, row.width)) (omega (arith, row.height)))

pub draw_rect-Inside : (x y w h color : ℕ) (f : FbInfo) → Inside f (fb_draw_rect x y w h color f)
unfolding fb_draw_rect
draw_rect-Inside x y w h color f =
    rect_loop-Inside (rounds y h f.height) (rounds x w f.width) x y color f (omega arith)
      (omega arith)

border_x-Inside : (left i y h color : ℕ) (f : FbInfo) → Inside f (border_x left i y h color f)
unfolding border_x
border_x-Inside zero i y h color f = Inside-refl f
border_x-Inside (suc left) i y h color f = Inside-trans _ (put_pixel-Inside i y color f) (
    Inside-trans _ (put_pixel-Inside i (sub32 (u32 (y + h)) 1) color _)
      (border_x-Inside left (i + 1) y h color _))

border_y-Inside : (left j x w color : ℕ) (f : FbInfo) → Inside f (border_y left j x w color f)
unfolding border_y
border_y-Inside zero j x w color f = Inside-refl f
border_y-Inside (suc left) j x w color f = Inside-trans _ (put_pixel-Inside x j color f) (
    Inside-trans _ (put_pixel-Inside (sub32 (u32 (x + w)) 1) j color _)
      (border_y-Inside left (j + 1) x w color _))

pub choose-Inside :
    (b : Bool) (f g h : FbInfo) → Inside f g → Inside f h → Inside f (if b then g else h)
choose-Inside true f g h p q = p
choose-Inside false f g h p q = q

pub rounded_rect-Inside :
    (x y w h color border : ℕ) (f : FbInfo) → Inside f (fb_draw_rounded_rect x y w h color border f)
unfolding fb_draw_rounded_rect
rounded_rect-Inside x y w h color border f =
    let filled = draw_rect-Inside x y w h color f in
    choose-Inside (border == 0) f _ _ filled (
      Inside-trans _ filled (
        Inside-trans _ (border_x-Inside (u32 (x + w) - x) x y h border _)
          (border_y-Inside (u32 (y + h) - y) y x w border _)))
