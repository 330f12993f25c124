-- ===== src/Compositor/Render.antt =====
-- The rendering of kernel/src/compositor/compositor.c: the windows of the workspace, the dock, the
-- island and the cursor are drawn to the back buffer, and `fb_swap` shows it.
use chef_os.Prelude.{
  ℕ, zero, suc, ◌+◌, ◌*◌, ◌==◌, not, if◌then◌else◌, Bool, false, ◌||◌, List, [], ◌∷◌, Option, none,
  some, u32, sub32, bytes,
}
use chef_os.Video.Fb.{
  FbInfo, color_bg, color_surface, color_surface_alt, color_text, color_text_muted, color_accent,
  color_border, color_white, fb_clear, fb_put_pixel, fb_swap,
}
use chef_os.Video.Fb.Cursor.{fb_draw_cursor}
use chef_os.Video.Fb.Drawing.{Drawing, rounded_rect, string, draw_all}
use chef_os.Compositor.Surface.{Surface, Pixels}
use chef_os.Compositor.Window.{Window, border_width, titlebar_height}
use chef_os.Compositor.Layout.{LayoutEngine, layout_apply, layout_get_mode_name}
use chef_os.Compositor.ShellUi.{ShellUi, render_dock, render_island}
use chef_os.Compositor.Desktop.{Desktop}

-- The frame, the title bar with its title, and the close button.
abbrev pub decoration : (focused : Bool) → Window → List Drawing
decoration focused win =
    rounded_rect win.x win.y win.width win.height color_surface color_border
    ∷ rounded_rect win.x win.y win.width titlebar_height
        (if focused then color_surface_alt else color_surface) color_border
    ∷ string win.title (u32 (win.x + 14)) (u32 (win.y + 6))
        (if focused then color_text else color_text_muted) 0
    ∷ rounded_rect (sub32 (u32 (win.x + win.width)) 24) (u32 (win.y + 7)) 14 14 color_accent 0
    ∷ string (bytes "x") (u32 (sub32 (u32 (win.x + win.width)) 24 + 4)) (u32 (u32 (win.y + 7) + 1))
        color_white 0
    ∷ []

-- `if (px != 0) fb_put_pixel(...)`
abbrev pub blit_pixel : (x y px : ℕ) → FbInfo → FbInfo
blit_pixel x y px f = if px == 0 then f else fb_put_pixel x y px f

-- The two loops that copy the surface `sw` wide to the place at `cx`, `cy`, with `left` rounds to go.
unfoldable pub blit_row : (left i j sw cx cy : ℕ) → Pixels → FbInfo → FbInfo
unfolding fb_put_pixel
blit_row zero i j sw cx cy p f = f
blit_row (suc left) i j sw cx cy p f =
    blit_row left (i + 1) j sw cx cy p
      (blit_pixel (u32 (cx + i)) (u32 (cy + j)) (p (u32 (j * sw + i))) f)

unfoldable pub blit_rows : (left j sw cx cy : ℕ) → Pixels → FbInfo → FbInfo
unfolding blit_row
blit_rows zero j sw cx cy p f = f
blit_rows (suc left) j sw cx cy p f =
    blit_rows left (j + 1) sw cx cy p (blit_row sw 0 j sw cx cy p f)

abbrev pub blit_pixels : (cx cy : ℕ) → Surface → Option Pixels → FbInfo → FbInfo
blit_pixels cx cy s none f = f
blit_pixels cx cy s (some p) f = blit_rows s.height 0 s.width cx cy p f

abbrev pub blit : (cx cy : ℕ) → Option Surface → FbInfo → FbInfo
blit cx cy none f = f
blit cx cy (some s) f = blit_pixels cx cy s s.pixels f

abbrev pub is_focus : Option ℕ → Window → Bool
is_focus none win = false
is_focus (some id) win = win.id == id

unfoldable pub draw_window : (active_ws : ℕ) → (focused : Option ℕ) → Window → FbInfo → FbInfo
unfolding draw_all blit_rows
draw_window active_ws focused win f =
    if win.is_minimized || not (win.workspace_id == active_ws)
    then f
    else blit (u32 (win.x + border_width)) (u32 (win.y + titlebar_height)) win.surface
        (draw_all (decoration (is_focus focused win) win) f)

-- The loop over the windows: all but the focused one.
unfoldable pub draw_others : (active_ws : ℕ) → (focused : Option ℕ) → List Window → FbInfo → FbInfo
unfolding draw_window
draw_others active_ws focused [] f = f
draw_others active_ws focused (w ∷ ws) f =
    draw_others active_ws focused ws
      (if is_focus focused w then f else draw_window active_ws focused w f)

-- The window that the pointer `focused_window` is to.
unfoldable pub focused_window : Option ℕ → List Window → Option Window
focused_window focused [] = none
focused_window focused (w ∷ ws) =
    let rest = focused_window focused ws in if is_focus focused w then some w else rest

abbrev pub draw_focused : (active_ws : ℕ) → (focused : Option ℕ) → Option Window → FbInfo → FbInfo
draw_focused active_ws focused none f = f
draw_focused active_ws focused (some w) f = draw_window active_ws focused w f

abbrev pub focused_title : Option Window → List ℕ
focused_title none = bytes "Chef OS"
focused_title (some w) = w.title

-- The static variables of the compositor, the tiling engine, the shell interface and the screen.
pub record Graphics : Type 0 where
  pub desktop : Desktop
  pub engine : LayoutEngine
  pub shell : ShellUi
  pub fb : FbInfo

-- The windows as the tiling engine places them.
abbrev pub laid_out : Graphics → List Window
laid_out g =
    layout_apply g.engine g.desktop.windows g.desktop.active_workspace g.desktop.screen_width
      g.desktop.screen_height

abbrev pub draw_windows : Desktop → List Window → FbInfo → FbInfo
draw_windows d ws f =
    draw_focused d.active_workspace d.focused (focused_window d.focused ws)
      (draw_others d.active_workspace d.focused ws f)

-- The island, and the buffer with all but the cursor.
abbrev pub draw_frame : (cmos : ℕ → ℕ) (ticks : ℕ) → Graphics → ShellUi × FbInfo
draw_frame cmos ticks g =
    let d = g.desktop in
    render_island cmos ticks d.screen_width
      (some (focused_title (focused_window d.focused (laid_out g)))) (layout_get_mode_name g.engine)
      g.shell
      (render_dock d.screen_height d.active_workspace
        (draw_windows d (laid_out g) (fb_clear color_bg g.fb)))

unfoldable pub render_frame : (cmos : ℕ → ℕ) (ticks : ℕ) → Graphics → Graphics
unfolding render_island render_dock draw_window draw_others focused_window fb_clear fb_swap
    fb_draw_cursor layout_apply
render_frame cmos ticks g =
    let drawn = draw_frame cmos ticks g in
    record {
      desktop = record (g.desktop) { windows = laid_out g; needs_redraw = false };
      engine = g.engine;
      shell = drawn.0;
      fb = fb_swap (fb_draw_cursor g.desktop.mouse_x g.desktop.mouse_y drawn.1);
    }
