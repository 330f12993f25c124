-- ===== src/Video/Tests.antt =====
-- The drawing theorems at a concrete screen.
use chef_os.Prelude.{◌≡◌, refl, arith}
use chef_os.Video.Fb.{FbInfo, fb_draw_rect}
use chef_os.Prelude.{[], ◌∷◌}
use chef_os.Video.Fb.Inside.{Inside}
use chef_os.Video.Fb.Drawing.{console, rect, draw_all}
use chef_os.Video.Fb.Bounded.{InBuffer, draw_all-InBuffer}

abbrev screen : FbInfo
screen = record {
  frontbuffer = λ k. 0;
  backbuffer = λ k. 0;
  width = 20;
  height = 10;
  pitch = 32;
  bpp = 32;
  cursor_x = 0;
  cursor_y = 0;
  fg_color = 1;
  bg_color = 0;
}

fb_draw_rect_runs : (fb_draw_rect 15 2 9 3 7 screen).backbuffer 59 ≡ 7
unfolding fb_draw_rect
fb_draw_rect_runs = refl

draw_all-InBuffer_example :
    Inside screen (draw_all (console (72 ∷ 105 ∷ []) ∷ rect 15 2 900 900 7 ∷ []) screen)
    × InBuffer screen (draw_all (console (72 ∷ 105 ∷ []) ∷ rect 15 2 900 900 7 ∷ []) screen)
draw_all-InBuffer_example =
    draw_all-InBuffer (console (72 ∷ 105 ∷ []) ∷ rect 15 2 900 900 7 ∷ []) screen (omega arith)
