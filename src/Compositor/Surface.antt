-- ===== src/Compositor/Surface.antt =====
-- Surfaces, kernel/src/compositor/surface.c: the pixels that a window's content is drawn on. The id
-- and the title, which no code reads, are left out. Positions are the bit patterns of the `int32_t`
-- values, whose sums wrap. A string is the list of its bytes.
pub mod Words
pub mod Within
use chef_os.Prelude.{
  ℕ, zero, suc, ◌+◌, ◌*◌, ◌^◌, ◌==◌, ltb, if◌then◌else◌, Bool, true, false, ◌&&◌, List, [], ◌∷◌,
  ◌++◌, Option, none, some, get_or, bit_or, u32,
}
use chef_os.Video.Fb.{rounds, glyph_bit, glyph_of}

abbrev pub Pixels : Type 0
Pixels = ℕ → ℕ

pub record Surface : Type 0 where
  pub x : ℕ
  pub y : ℕ
  pub width : ℕ
  pub height : ℕ
  pub flags : ℕ
  pub pixels : Option Pixels

abbrev pub surface_flag_visible : ℕ
surface_flag_visible = 1

abbrev pub surface_flag_window : ℕ
surface_flag_window = 8

-- A surface whose pixels `kzalloc` set to 0, if it had memory for them.
abbrev pub zeroed : (has_pixels : Bool) (width height flags : ℕ) → Surface
zeroed has_pixels width height flags = record {
  x = 0;
  y = 0;
  width = width;
  height = height;
  flags = bit_or flags surface_flag_visible;
  pixels = if has_pixels then some (λ i. 0) else none;
}

-- The two Booleans are the outcomes of the calls of `kzalloc`.
unfoldable pub surface_create :
    (has_node has_pixels : Bool) (width height flags : ℕ) → Option Surface
surface_create has_node has_pixels width height flags =
    if has_node then some (zeroed has_pixels width height flags) else none

abbrev pub moved : (x y : ℕ) → Surface → Surface
moved x y s = record s { x = x; y = y }

unfoldable pub surface_set_position : Option Surface → (x y : ℕ) → Option Surface
surface_set_position none x y = none
surface_set_position (some s) x y = some (moved x y s)

-- `pixels[i] = color`
unfoldable pub set_pixel : (i color : ℕ) → Pixels → Pixels
set_pixel i color p k = if k == i then color else p k

-- `for (i = ...; i < count; i++)`, with `left` rounds to go.
unfoldable pub clear_loop : (left i color : ℕ) → Pixels → Pixels
unfolding set_pixel
clear_loop zero i color p = p
clear_loop (suc left) i color p = clear_loop left (i + 1) color (set_pixel i color p)

-- A change of the pixels, where there is a surface that has them.
abbrev pub on_pixels : (Surface → Pixels → Pixels) → Surface → Option Pixels → Surface
on_pixels f s none = s
on_pixels f s (some p) = record s { pixels = some (f s p) }

unfoldable pub on_surface : (Surface → Pixels → Pixels) → Option Surface → Option Surface
on_surface f none = none
on_surface f (some s) = some (on_pixels f s s.pixels)

abbrev pub clear_pixels : (color : ℕ) → Surface → Pixels → Pixels
clear_pixels color s p = clear_loop (u32 (s.width * s.height)) 0 color p

unfoldable pub surface_clear : Option Surface → (color : ℕ) → Option Surface
unfolding on_surface clear_loop
surface_clear surf color = on_surface (clear_pixels color) surf

-- The two loops of `surface_draw_rect`, with `left` rounds to go.
unfoldable pub row_pixels : (left i j color width : ℕ) → Pixels → Pixels
unfolding set_pixel
row_pixels zero i j color width p = p
row_pixels (suc left) i j color width p =
    row_pixels left (i + 1) j color width (set_pixel (u32 (j * width + i)) color p)

unfoldable pub rect_pixels : (left cells x j color width : ℕ) → Pixels → Pixels
unfolding row_pixels
rect_pixels zero cells x j color width p = p
rect_pixels (suc left) cells x j color width p =
    rect_pixels left cells x (j + 1) color width (row_pixels cells x j color width p)

abbrev pub draw_rect_pixels : (x y w h color : ℕ) → Surface → Pixels → Pixels
draw_rect_pixels x y w h color s p =
    rect_pixels (rounds y h s.height) (rounds x w s.width) x y color s.width p

unfoldable pub surface_draw_rect : Option Surface → (x y w h color : ℕ) → Option Surface
unfolding on_surface rect_pixels
surface_draw_rect surf x y w h color = on_surface (draw_rect_pixels x y w h color) surf

-- `p >= 0 && p < (int32_t)size`
abbrev pub on_axis : (p size : ℕ) → Bool
on_axis p size = ltb p (2 ^ 31) && (ltb size (2 ^ 31) && ltb p size)

unfoldable pub dot : (px py fg : ℕ) → Surface → Pixels → Pixels
unfolding set_pixel
dot px py fg s p =
    if on_axis px s.width && on_axis py s.height
    then set_pixel (u32 (py * s.width + px)) fg p
    else p

unfoldable pub char_row : (left col bits x py fg : ℕ) → Surface → Pixels → Pixels
unfolding dot
char_row zero col bits x py fg s p = p
char_row (suc left) col bits x py fg s p =
    char_row left (col + 1) bits x py fg s
      (if glyph_bit bits col then dot (u32 (x + col)) py fg s p else p)

unfoldable pub char_rows : (left r : ℕ) → List ℕ → (x y fg : ℕ) → Surface → Pixels → Pixels
unfolding char_row
char_rows zero r glyph x y fg s p = p
char_rows (suc left) r glyph x y fg s p =
    char_rows left (r + 1) glyph x y fg s (char_row 8 0 (get_or glyph r 0) x (u32 (y + r)) fg s p)

unfoldable pub draw_string_pixels : List ℕ → (x y fg : ℕ) → Surface → Pixels → Pixels
unfolding char_rows glyph_of
draw_string_pixels [] x y fg s p = p
draw_string_pixels (c ∷ cs) x y fg s p =
    draw_string_pixels cs (u32 (x + 8)) y fg s (char_rows 16 0 (glyph_of c) x y fg s p)

unfoldable pub surface_draw_string : Option Surface → List ℕ → (x y fg : ℕ) → Option Surface
unfolding on_surface draw_string_pixels
surface_draw_string surf str x y fg = on_surface (draw_string_pixels str x y fg) surf

-- The memory that is given back to the heap.
pub data Freed : Type 0 where
  pixel_memory surface_memory window_memory : Freed

abbrev free_pixels : Option Pixels → List Freed
free_pixels none = []
free_pixels (some p) = pixel_memory ∷ []

-- The calls of `kfree`, in order.
unfoldable pub surface_destroy : Option Surface → List Freed
surface_destroy none = []
surface_destroy (some s) = free_pixels s.pixels ++ (surface_memory ∷ [])
