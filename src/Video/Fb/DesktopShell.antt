-- ===== src/Video/Fb/DesktopShell.antt =====
-- `fb_draw_desktop_shell` of kernel/src/video/fb.c: the dock, the island and an empty console window.
-- The parts of the dock are those of `shell_ui_render_dock` as well.
use chef_os.Prelude.{
  ℕ, ◌+◌, ◌*◌, ◌/◌, ◌==◌, if◌then◌else◌, List, [], ◌∷◌, ◌++◌, u32, sub32, sub64, bytes,
}
use chef_os.Video.Fb.{
  FbInfo, color_bg, color_surface, color_surface_alt, color_text, color_text_muted, color_accent,
  color_border, color_white, fb_swap,
}
use chef_os.Video.Fb.Drawing.{Drawing, clear, rounded_rect, string, draw_all}

-- The frame of a dock of that height, with the crest.
abbrev pub dock_frame : (dock_h : ℕ) → List Drawing
dock_frame dock_h =
    rounded_rect 12 12 56 dock_h color_surface color_border
    ∷ rounded_rect 22 24 36 36 color_accent 0
    ∷ string (bytes "C") 36 34 color_white 0
    ∷ []

abbrev pub ws_labels : List (List ℕ)
ws_labels = bytes "1" ∷ bytes "2" ∷ bytes "3" ∷ bytes "4" ∷ bytes "+" ∷ []

-- The loop over the workspaces, from number `i` on.
abbrev pub pills : List (List ℕ) → (i active_ws : ℕ) → List Drawing
pills [] i active_ws = []
pills (label ∷ labels) i active_ws =
    rounded_rect 26 (72 + i * 38) 28 28
      (if i + 1 == active_ws then color_accent else color_surface_alt) color_border
    ∷ string label 36 (72 + i * 38 + 6) (if i + 1 == active_ws then color_white else color_text) 0
    ∷ pills labels (i + 1) active_ws

-- The controls at the bottom, from `bot_y` on.
abbrev pub dock_controls : (bot_y : ℕ) → List Drawing
dock_controls bot_y =
    rounded_rect 26 bot_y 28 28 color_surface_alt color_border
    ∷ string (bytes "v") 36 (u32 (bot_y + 6)) color_text_muted 0
    ∷ rounded_rect 26 (u32 (bot_y + 36)) 28 28 color_surface_alt color_border
    ∷ string (bytes "w") 36 (u32 (bot_y + 42)) color_text_muted 0
    ∷ rounded_rect 26 (u32 (bot_y + 72)) 28 28 color_accent 0
    ∷ string (bytes "x") 36 (u32 (bot_y + 78)) color_white 0
    ∷ []

-- `dock_y + dock_h - 130`
abbrev pub controls_y : (dock_h : ℕ) → ℕ
controls_y dock_h = sub32 (u32 (12 + dock_h)) 130

abbrev console_window : (island_x win_w win_h : ℕ) → List Drawing
console_window island_x win_w win_h =
    rounded_rect island_x 12 260 36 color_surface color_border
    ∷ string (bytes "Chef OS  ::  Ready") (u32 (island_x + 48)) 22 color_text 0
    ∷ rounded_rect 88 60 win_w win_h color_surface color_border
    ∷ rounded_rect 88 60 win_w 30 color_surface_alt color_border
    ∷ string (bytes "Chef OS Native Kernel Console (v1.0.0-alpha)  [Super+W to close]") 104 68
        color_text 0
    ∷ []

abbrev pub desktop_shell : (width height : ℕ) → List Drawing
desktop_shell width height =
    clear color_bg ∷ dock_frame (u32 (sub64 height 24))
    ++ pills ws_labels 0 1
    ++ dock_controls (controls_y (u32 (sub64 height 24)))
    ++ console_window (u32 (sub64 width 260 / 2)) (u32 (sub64 width 108)) (u32 (sub64 height 80))

unfoldable pub fb_draw_desktop_shell : FbInfo → FbInfo
unfolding draw_all fb_swap
fb_draw_desktop_shell f =
    fb_swap
      (record (draw_all (desktop_shell f.width f.height) f) { cursor_x = 104; cursor_y = 102 })
