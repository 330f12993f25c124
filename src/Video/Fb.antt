-- ===== src/Video/Fb.antt =====
-- The frame buffer of kernel/src/video/fb.c. A buffer is a function of the index of a pixel.
-- Coordinates are `uint32_t`, the sizes of the screen `uint64_t`. A screen has fewer than 2^64
-- pixels, so no index wraps. A string is the list of its bytes.
pub mod Cursor
pub mod Rect
pub mod Inside
pub mod Drawing
pub mod DesktopShell
pub mod Swap
pub mod Bounded
use chef_os.Prelude.{
  ℕ, zero, suc, ◌+◌, ◌-◌, ◌*◌, ◌/◌, ◌%◌, ◌==◌, leb, ltb, if◌then◌else◌, Bool, true, false, not,
  ◌&&◌, ◌||◌, List, [], ◌∷◌, get_or, bit_and, u32, sub32, u64, sub64, shr,
}
use Prim.Native.Nat.{min}
use chef_os.Video.Font.{font_8x16}

abbrev pub backbuffer_words : ℕ
backbuffer_words = 1920 * 1080

-- `backbuffer` is the memory from `s_backbuffer` on, whose first `backbuffer_words` words are the array.
pub record FbInfo : Type 0 where
  pub frontbuffer : ℕ → ℕ
  pub backbuffer : ℕ → ℕ
  pub width : ℕ
  pub height : ℕ
  pub pitch : ℕ
  pub bpp : ℕ
  pub cursor_x : ℕ
  pub cursor_y : ℕ
  pub fg_color : ℕ
  pub bg_color : ℕ

abbrev pub color_bg : ℕ
color_bg = 0x00F1EBDD

abbrev pub color_surface : ℕ
color_surface = 0x00F8F4EA

abbrev pub color_surface_alt : ℕ
color_surface_alt = 0x00E8E0CE

abbrev pub color_text : ℕ
color_text = 0x002B2A28

abbrev pub color_text_muted : ℕ
color_text_muted = 0x006E6A5F

abbrev pub color_accent : ℕ
color_accent = 0x00A6534A

abbrev pub color_border : ℕ
color_border = 0x00DCD3BE

abbrev pub color_green : ℕ
color_green = 0x004A7C59

abbrev pub color_blue : ℕ
color_blue = 0x003D6B8C

abbrev pub color_white : ℕ
color_white = 0x00FFFFFF

-- `g_fb.backbuffer[i] = color`
unfoldable pub poke : (i color : ℕ) → FbInfo → FbInfo
poke i color f = record f { backbuffer = λ k. if k == i then color else f.backbuffer k }

-- `for (i = ...; i < ...; i++)` of one row, with `left` rounds to go.
unfoldable pub row_loop : (left i j color : ℕ) → FbInfo → FbInfo
unfolding poke
row_loop zero i j color f = f
row_loop (suc left) i j color f = row_loop left (i + 1) j color (poke (j * f.width + i) color f)

-- `for (j = ...; j < ...; j++)`, with `left` rounds to go and `cells` in each row.
unfoldable pub rect_loop : (left cells x j color : ℕ) → FbInfo → FbInfo
unfolding row_loop
rect_loop zero cells x j color f = f
rect_loop (suc left) cells x j color f =
    rect_loop left cells x (j + 1) color (row_loop cells x j color f)

unfoldable pub fb_clear : (color : ℕ) → FbInfo → FbInfo
unfolding rect_loop
fb_clear color f = rect_loop f.height f.width 0 0 color f

unfoldable pub fb_put_pixel : (x y color : ℕ) → FbInfo → FbInfo
unfolding poke
fb_put_pixel x y color f =
    if leb f.width x || leb f.height y then f else poke (y * f.width + x) color f

-- The rounds of `for (i = x; i < x + w && i < size; i++)`.
abbrev pub rounds : (x w size : ℕ) → ℕ
rounds x w size = min (u32 (x + w)) size - x

unfoldable pub fb_draw_rect : (x y w h color : ℕ) → FbInfo → FbInfo
unfolding rect_loop
fb_draw_rect x y w h color f = rect_loop (rounds y h f.height) (rounds x w f.width) x y color f

-- The two border loops of `fb_draw_rounded_rect`, with `left` rounds to go.
unfoldable pub border_x : (left i y h color : ℕ) → FbInfo → FbInfo
unfolding fb_put_pixel
border_x zero i y h color f = f
border_x (suc left) i y h color f =
    border_x left (i + 1) y h color
      (fb_put_pixel i (sub32 (u32 (y + h)) 1) color (fb_put_pixel i y color f))

unfoldable pub border_y : (left j x w color : ℕ) → FbInfo → FbInfo
unfolding fb_put_pixel
border_y zero j x w color f = f
border_y (suc left) j x w color f =
    border_y left (j + 1) x w color
      (fb_put_pixel (sub32 (u32 (x + w)) 1) j color (fb_put_pixel x j color f))

-- The radius is not used.
unfoldable pub fb_draw_rounded_rect : (x y w h color border_color : ℕ) → FbInfo → FbInfo
unfolding fb_draw_rect border_x border_y
fb_draw_rounded_rect x y w h color border_color f =
    let filled = fb_draw_rect x y w h color f in
    if border_color == 0
    then filled
    else border_y (u32 (y + h) - y) y x w border_color
        (border_x (u32 (x + w) - x) x y h border_color filled)

-- Bit `7 - col` of a row of the glyph.
abbrev pub glyph_bit : (bits col : ℕ) → Bool
glyph_bit bits col = not (bit_and (shr bits (7 - col)) 1 == 0)

unfoldable pub glyph_row : (left col bits x y fg bg : ℕ) → FbInfo → FbInfo
unfolding fb_put_pixel
glyph_row zero col bits x y fg bg f = f
glyph_row (suc left) col bits x y fg bg f = glyph_row left (col + 1) bits x y fg bg (
    if glyph_bit bits col
    then fb_put_pixel (u32 (x + col)) y fg f
    else if bg == 0
    then f
    else fb_put_pixel (u32 (x + col)) y bg f)

unfoldable pub glyph_rows : (left row : ℕ) → List ℕ → (x y fg bg : ℕ) → FbInfo → FbInfo
unfolding glyph_row
glyph_rows zero row glyph x y fg bg f = f
glyph_rows (suc left) row glyph x y fg bg f =
    glyph_rows left (row + 1) glyph x y fg bg
      (glyph_row 8 0 (get_or glyph row 0) x (u32 (y + row)) fg bg f)

-- `font_8x16[c]`, with `?` for a byte above 127.
unfoldable pub glyph_of : ℕ → List ℕ
unfolding font_8x16
glyph_of c = get_or font_8x16 (if ltb 127 c then 63 else c) []

unfoldable pub fb_draw_char : (c x y fg bg : ℕ) → FbInfo → FbInfo
unfolding glyph_rows
fb_draw_char c x y fg bg f = glyph_rows 16 0 (glyph_of c) x y fg bg f

unfoldable pub fb_draw_string : List ℕ → (x y fg bg : ℕ) → FbInfo → FbInfo
unfolding fb_draw_char
fb_draw_string [] x y fg bg f = f
fb_draw_string (c ∷ cs) x y fg bg f =
    fb_draw_string cs (u32 (x + 8)) y fg bg (fb_draw_char c x y fg bg f)

-- The start of the next line of the console.
abbrev pub new_line : FbInfo → FbInfo
new_line f = record f { cursor_x = 104; cursor_y = u32 (f.cursor_y + 18) }

abbrev pub put_glyph : (c : ℕ) → FbInfo → FbInfo
put_glyph c f =
    let g = fb_draw_char c f.cursor_x f.cursor_y f.fg_color 0 f in
    record g { cursor_x = u32 (g.cursor_x + 8) }

unfoldable pub fb_putc : (c : ℕ) → FbInfo → FbInfo
unfolding fb_draw_char
fb_putc c f =
    if c == 10
    then new_line f
    else put_glyph c (if leb (sub64 f.width 40) (u32 (f.cursor_x + 8)) then new_line f else f)

unfoldable pub fb_puts : List ℕ → FbInfo → FbInfo
unfolding fb_putc
fb_puts [] f = f
fb_puts (c ∷ cs) f = fb_puts cs (fb_putc c f)

-- `memcpy` of one row to the front buffer.
abbrev pub copy_row : (y : ℕ) → FbInfo → FbInfo
copy_row y f = record f {
  frontbuffer = λ k.
      if leb (y * f.pitch) k && ltb k (y * f.pitch + f.width)
      then f.backbuffer (y * f.width + (k - y * f.pitch))
      else f.frontbuffer k;
}

unfoldable pub swap_loop : (left y : ℕ) → FbInfo → FbInfo
swap_loop zero y f = f
swap_loop (suc left) y f = swap_loop left (y + 1) (copy_row y f)

-- `fb_swap` once both buffers are there.
unfoldable pub fb_swap : FbInfo → FbInfo
unfolding swap_loop
fb_swap f = swap_loop f.height 0 f

-- `fb_init` with a frame buffer; its pitch is in bytes.
unfoldable pub fb_init : (address : ℕ → ℕ) (width height pitch bpp : ℕ) → FbInfo → FbInfo
unfolding fb_clear fb_swap
fb_init address width height pitch bpp f = fb_swap (
    fb_clear color_bg (record f {
      frontbuffer = address;
      width = width;
      height = height;
      pitch = pitch / 4;
      bpp = bpp;
      cursor_x = 80;
      cursor_y = 60;
      fg_color = color_text;
      bg_color = color_bg;
    }))
