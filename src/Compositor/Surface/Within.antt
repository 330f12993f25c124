-- ===== src/Compositor/Surface/Within.antt =====
-- Which words drawing on a surface writes.
use chef_os.Prelude.{
  ℕ, ◌*◌, ◌^◌, ◌<◌, ◌≡◌, refl, sym, ◌∙◌, List, [], ◌∷◌, Option, none, some, u32, arith,
}
use chef_os.Video.Fb.{rounds}
use chef_os.Compositor.Surface.{
  Pixels, Surface, clear_pixels, draw_rect_pixels, draw_string_pixels, on_pixels, on_surface, moved,
  surface_clear, surface_draw_rect, surface_draw_string, surface_set_position,
}
use chef_os.Compositor.Surface.Words.{
  SameFrom, SameFrom-trans, clear_loop-SameFrom, rect_pixels-SameFrom, draw_string-SameFrom,
}

-- A call of one of the functions of a surface.
pub data Painting : Type 0 where
  clear : (color : ℕ) → Painting
  rect : (x y w h color : ℕ) → Painting
  string : List ℕ → (x y fg : ℕ) → Painting
  position : (x y : ℕ) → Painting

unfoldable pub paint : Painting → Option Surface → Option Surface
paint (clear color) s = surface_clear s color
paint (rect x y w h color) s = surface_draw_rect s x y w h color
paint (string str x y fg) s = surface_draw_string s str x y fg
paint (position x y) s = surface_set_position s x y

unfoldable pub paint_all : List Painting → Option Surface → Option Surface
unfolding paint
paint_all [] s = s
paint_all (c ∷ cs) s = paint_all cs (paint c s)

-- No word behind the pixels differs, and a surface without pixels stays without.
abbrev pub PixelsKept : ℕ → Option Pixels → Option Pixels → Type 0
PixelsKept n none none = Unit
PixelsKept n none (some q) = ⊥
PixelsKept n (some p) none = ⊥
PixelsKept n (some p) (some q) = SameFrom n p q

pub record Within (s t : Surface) : Type 0 where
  pub width : t.width ≡ s.width
  pub height : t.height ≡ s.height
  pub flags : t.flags ≡ s.flags
  pub pixels : PixelsKept (s.width * s.height) s.pixels t.pixels

PixelsKept-refl : (n : ℕ) (p : Option Pixels) → PixelsKept n p p
PixelsKept-refl n none = tt
PixelsKept-refl n (some p) = λ k h. refl

PixelsKept-trans :
    (n : ℕ) (p q r : Option Pixels) → PixelsKept n p q → PixelsKept n q r → PixelsKept n p r
PixelsKept-trans n none none none a b = tt
PixelsKept-trans n none none (some r) a b = absurd b
PixelsKept-trans n none (some q) r a b = absurd a
PixelsKept-trans n (some p) none r a b = absurd a
PixelsKept-trans n (some p) (some q) none a b = absurd b
PixelsKept-trans n (some p) (some q) (some r) a b = SameFrom-trans n p q r a b

Within-refl : (s : Surface) → Within s s
Within-refl s = record {
  width = refl;
  height = refl;
  flags = refl;
  pixels = PixelsKept-refl (s.width * s.height) s.pixels;
}

Within-trans : (s t u : Surface) → Within s t → Within t u → Within s u
Within-trans s t u a b = record {
  width = b.width ∙ a.width;
  height = b.height ∙ a.height;
  flags = b.flags ∙ a.flags;
  pixels =
      PixelsKept-trans (s.width * s.height) s.pixels t.pixels u.pixels a.pixels
        (rw (sym a.width, sym a.height) b.pixels);
}

PixelsKept-eq : (n : ℕ) (o p q : Option Pixels) → o ≡ p → PixelsKept n p q → PixelsKept n o q
PixelsKept-eq n o p q e h = rw e h

on_pixels-Within :
    (s : Surface) (f : Surface → Pixels → Pixels) (o : Option Pixels)
    → s.pixels ≡ o
    → ((p : Pixels) → SameFrom (s.width * s.height) p (f s p))
    → Within s (on_pixels f s o)
on_pixels-Within s f none e h = Within-refl s
on_pixels-Within s f (some p) e h = record {
  width = refl;
  height = refl;
  flags = refl;
  pixels = PixelsKept-eq (s.width * s.height) s.pixels (some p) (some (f s p)) e (h p);
}

paint-Within :
    (c : Painting) (s : Surface)
    → s.width * s.height < 2 ^ 32
    → (t : Surface) × (paint c (some s) ≡ some t) × Within s t
unfolding paint surface_clear surface_draw_rect surface_draw_string surface_set_position on_surface
paint-Within (clear color) s small = (
  on_pixels (clear_pixels color) s s.pixels,
  refl,
  on_pixels-Within s (clear_pixels color) s.pixels refl (λ p.
      clear_loop-SameFrom (s.width * s.height) (u32 (s.width * s.height)) 0 color p (omega arith)),
)
paint-Within (rect x y w h color) s small = (
  on_pixels (draw_rect_pixels x y w h color) s s.pixels,
  refl,
  on_pixels-Within s (draw_rect_pixels x y w h color) s.pixels refl (λ p.
      rect_pixels-SameFrom s small (rounds y h s.height) (rounds x w s.width) x y color p
        (omega arith) (omega arith)),
)
paint-Within (string str x y fg) s small = (
  on_pixels (draw_string_pixels str x y fg) s s.pixels,
  refl,
  on_pixels-Within s (draw_string_pixels str x y fg) s.pixels refl
      (draw_string-SameFrom s small str x y fg),
)
paint-Within (position x y) s small = (
  moved x y s,
  refl,
  record {
    width = refl;
    height = refl;
    flags = refl;
    pixels = PixelsKept-refl (s.width * s.height) s.pixels;
  },
)

-- On a surface of fewer than 2^32 pixels, after any calls of the functions that draw on it or
-- move it, at any coordinates, its size and its flags are the same and no word behind its
-- width * height pixels has changed.
pub paint_all-Within :
    (cs : List Painting) (s : Surface)
    → s.width * s.height < 2 ^ 32
    → (t : Surface) × (paint_all cs (some s) ≡ some t) × Within s t
unfolding paint_all
paint_all-Within [] s small = (s, refl, Within-refl s)
paint_all-Within (c ∷ cs) s small =
    let (t, e, a) = paint-Within c s small in
    let (u, f, b) = paint_all-Within cs t (rw (a.width, a.height) small) in
    (u, rw e f, Within-trans s t u a b)
