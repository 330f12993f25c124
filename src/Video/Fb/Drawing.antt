-- ===== src/Video/Fb/Drawing.antt =====
-- Sequences of drawing calls.
use chef_os.Prelude.{ℕ, zero, suc, ◌+◌, refl, ◌==◌, leb, List, [], ◌∷◌, u32, sub64, arith, get_or}
use chef_os.Video.Fb.{
  FbInfo, fb_clear, fb_put_pixel, fb_draw_rect, fb_draw_rounded_rect, glyph_bit, glyph_row,
  glyph_rows, glyph_of, fb_draw_char, fb_draw_string, fb_putc, put_glyph, new_line, fb_puts,
  color_text, color_white,
}
use chef_os.Video.Fb.Cursor.{cursor_row, cursor_rows, cursor_bitmap, fb_draw_cursor}
use chef_os.Video.Fb.Inside.{
  Inside, Inside-refl, Inside-trans, put_pixel-Inside, rect_loop-Inside, draw_rect-Inside,
  choose-Inside, rounded_rect-Inside,
}

glyph_row-Inside :
    (left col bits x y fg bg : ℕ) (f : FbInfo) → Inside f (glyph_row left col bits x y fg bg f)
unfolding glyph_row
glyph_row-Inside zero col bits x y fg bg f = Inside-refl f
glyph_row-Inside (suc left) col bits x y fg bg f =
    Inside-trans _
      (choose-Inside (glyph_bit bits col) f _ _ (put_pixel-Inside (u32 (x + col)) y fg f)
        (choose-Inside (bg == 0) f _ _ (Inside-refl f) (put_pixel-Inside (u32 (x + col)) y bg f)))
      (glyph_row-Inside left (col + 1) bits x y fg bg _)

glyph_rows-Inside :
    (left row : ℕ) (glyph : List ℕ) (x y fg bg : ℕ) (f : FbInfo)
    → Inside f (glyph_rows left row glyph x y fg bg f)
unfolding glyph_rows
glyph_rows-Inside zero row glyph x y fg bg f = Inside-refl f
glyph_rows-Inside (suc left) row glyph x y fg bg f =
    Inside-trans _ (glyph_row-Inside 8 0 (get_or glyph row 0) x (u32 (y + row)) fg bg f)
      (glyph_rows-Inside left (row + 1) glyph x y fg bg _)

draw_char-Inside : (c x y fg bg : ℕ) (f : FbInfo) → Inside f (fb_draw_char c x y fg bg f)
unfolding fb_draw_char
draw_char-Inside c x y fg bg f = glyph_rows-Inside 16 0 (glyph_of c) x y fg bg f

draw_string-Inside :
    (s : List ℕ) (x y fg bg : ℕ) (f : FbInfo) → Inside f (fb_draw_string s x y fg bg f)
unfolding fb_draw_string
draw_string-Inside [] x y fg bg f = Inside-refl f
draw_string-Inside (c ∷ s) x y fg bg f =
    Inside-trans _ (draw_char-Inside c x y fg bg f) (draw_string-Inside s (u32 (x + 8)) y fg bg _)

new_line-Inside : (f : FbInfo) → Inside f (new_line f)
new_line-Inside f = record {
  width = refl;
  height = refl;
  pitch = refl;
  front = refl;
  behind = λ k le. refl;
}

put_glyph-Inside : (c : ℕ) (f : FbInfo) → Inside f (put_glyph c f)
put_glyph-Inside c f =
    let p = draw_char-Inside c f.cursor_x f.cursor_y f.fg_color 0 f in
    record {
      width = p.width;
      height = p.height;
      pitch = p.pitch;
      front = p.front;
      behind = p.behind;
    }

pub putc-Inside : (c : ℕ) (f : FbInfo) → Inside f (fb_putc c f)
unfolding fb_putc
putc-Inside c f = choose-Inside (c == 10) f _ _ (new_line-Inside f) (
    Inside-trans _
      (choose-Inside (leb (sub64 f.width 40) (u32 (f.cursor_x + 8))) f _ _ (new_line-Inside f)
        (Inside-refl f))
      (put_glyph-Inside c _))

pub puts-Inside : (s : List ℕ) (f : FbInfo) → Inside f (fb_puts s f)
unfolding fb_puts
puts-Inside [] f = Inside-refl f
puts-Inside (c ∷ s) f = Inside-trans _ (putc-Inside c f) (puts-Inside s _)

cursor_row-Inside : (vs : List ℕ) (x y : ℕ) (f : FbInfo) → Inside f (cursor_row vs x y f)
unfolding cursor_row
cursor_row-Inside [] x y f = Inside-refl f
cursor_row-Inside (v ∷ vs) x y f =
    Inside-trans _
      (choose-Inside (v == 1) f _ _ (put_pixel-Inside x y color_text f)
        (choose-Inside (v == 2) f _ _ (put_pixel-Inside x y color_white f) (Inside-refl f)))
      (cursor_row-Inside vs (u32 (x + 1)) y _)

cursor_rows-Inside : (rs : List (List ℕ)) (x y : ℕ) (f : FbInfo) → Inside f (cursor_rows rs x y f)
unfolding cursor_rows
cursor_rows-Inside [] x y f = Inside-refl f
cursor_rows-Inside (r ∷ rs) x y f =
    Inside-trans _ (cursor_row-Inside r x y f) (cursor_rows-Inside rs x (u32 (y + 1)) _)

-- A call of one of the drawing functions.
pub data Drawing : Type 0 where
  clear : (color : ℕ) → Drawing
  pixel : (x y color : ℕ) → Drawing
  rect : (x y w h color : ℕ) → Drawing
  rounded_rect : (x y w h color border : ℕ) → Drawing
  string : List ℕ → (x y fg bg : ℕ) → Drawing
  console : List ℕ → Drawing
  cursor : (x y : ℕ) → Drawing

unfoldable pub draw : Drawing → FbInfo → FbInfo
draw (clear color) f = fb_clear color f
draw (pixel x y color) f = fb_put_pixel x y color f
draw (rect x y w h color) f = fb_draw_rect x y w h color f
draw (rounded_rect x y w h color border) f = fb_draw_rounded_rect x y w h color border f
draw (string s x y fg bg) f = fb_draw_string s x y fg bg f
draw (console s) f = fb_puts s f
draw (cursor x y) f = fb_draw_cursor x y f

unfoldable pub draw_all : List Drawing → FbInfo → FbInfo
unfolding draw
draw_all [] f = f
draw_all (d ∷ ds) f = draw_all ds (draw d f)

pub draw-Inside : (d : Drawing) (f : FbInfo) → Inside f (draw d f)
unfolding draw fb_clear fb_draw_cursor
draw-Inside (clear color) f =
    rect_loop-Inside f.height f.width 0 0 color f (omega arith) (omega arith)
draw-Inside (pixel x y color) f = put_pixel-Inside x y color f
draw-Inside (rect x y w h color) f = draw_rect-Inside x y w h color f
draw-Inside (rounded_rect x y w h color border) f = rounded_rect-Inside x y w h color border f
draw-Inside (string s x y fg bg) f = draw_string-Inside s x y fg bg f
draw-Inside (console s) f = puts-Inside s f
draw-Inside (cursor x y) f = cursor_rows-Inside cursor_bitmap x y f

pub draw_all-Inside : (ds : List Drawing) (f : FbInfo) → Inside f (draw_all ds f)
unfolding draw_all
draw_all-Inside [] f = Inside-refl f
draw_all-Inside (d ∷ ds) f = Inside-trans _ (draw-Inside d f) (draw_all-Inside ds (draw d f))
