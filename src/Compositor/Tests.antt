-- ===== src/Compositor/Tests.antt =====
-- The layout theorems at concrete screens.
use chef_os.Prelude.{ℕ, ◌≡◌, refl, true, false, List, [], ◌∷◌, none, some, arith, length}
use chef_os.Compositor.Window.{Window}
use chef_os.Compositor.Layout.{layout_init, area, place, layout_apply}
use chef_os.Compositor.Layout.MasterStack.{IsScreen, MasterAndStack, place-MasterAndStack}
use chef_os.Compositor.Desktop.{Desktop, cycle_focus}
use chef_os.Compositor.Desktop.Focus.{
  AllApart, nth_id, IsFocused, next_place, cycle_focus-IsFocused,
}
use chef_os.Compositor.Layout.Apply.{shown, shown_rects, hidden, ids, layout_apply-MasterAndStack}
use chef_os.Compositor.Surface.{Surface, zeroed, surface_flag_window}
use chef_os.Compositor.Surface.Within.{Painting, string, paint_all, Within, paint_all-Within}

hd-IsScreen : IsScreen 1920 1080
hd-IsScreen = record {
  wide = omega arith;
  tall = omega arith;
  w_fits = omega arith;
  h_fits = omega arith;
}

place-MasterAndStack_example :
    MasterAndStack 1920 1080 (place layout_init (area layout_init 1920 1080) 3)
    × (length (place layout_init (area layout_init 1920 1080) 3) ≡ 3)
place-MasterAndStack_example =
    place-MasterAndStack 1920 1080 3 hd-IsScreen (omega arith) (omega arith)

abbrev window : ℕ → ℕ → Window
window id ws = record {
  id = id;
  surface = none;
  x = 5;
  y = 5;
  width = 400;
  height = 300;
  workspace_id = ws;
  is_focused = false;
  is_minimized = false;
  title = [];
  paint = none;
}

-- Three windows, of which the workspace shows the first and the last.
abbrev three : List Window
three = window 1 0 ∷ window 2 1 ∷ window 3 0 ∷ []

three-shown : shown 0 three ≡ 2
unfolding shown
three-shown = refl

layout_apply-MasterAndStack_example :
    MasterAndStack 1920 1080 (shown_rects 0 (layout_apply layout_init three 0 1920 1080))
    × (hidden 0 (layout_apply layout_init three 0 1920 1080) ≡ hidden 0 three)
    × (ids (layout_apply layout_init three 0 1920 1080) ≡ ids three)
layout_apply-MasterAndStack_example =
    layout_apply-MasterAndStack 1920 1080 0 three hd-IsScreen (omega (arith, three-shown))
      (omega (arith, three-shown))

-- The focus is on the last window.
abbrev desktop : Desktop
desktop = record {
  screen_width = 1920;
  screen_height = 1080;
  active_workspace = 1;
  windows = three;
  focused = some 3;
  mouse_x = 0;
  mouse_y = 0;
  needs_redraw = false;
}

desktop-IsFocused : IsFocused desktop 2
unfolding AllApart nth_id
desktop-IsFocused = record {
  apart = ((omega arith, (omega arith, tt)), ((omega arith, tt), (tt, tt)));
  inside = omega arith;
  focus = refl;
}

cycle_focus-IsFocused_example :
    IsFocused (cycle_focus desktop) (next_place 3 2) × ((cycle_focus desktop).windows ≡ three)
cycle_focus-IsFocused_example = cycle_focus-IsFocused desktop 2 desktop-IsFocused

-- A surface of 40 by 30 pixels, and text that leaves it.
abbrev small_surface : Surface
small_surface = zeroed true 40 30 surface_flag_window

paint_all-Within_example :
    (t : Surface) × (paint_all
        (Painting.clear 7 ∷ string (65 ∷ 66 ∷ []) 30 20 9 ∷ [])
        (some small_surface)
      ≡ some t)
    × Within small_surface t
paint_all-Within_example =
    paint_all-Within (Painting.clear 7 ∷ string (65 ∷ 66 ∷ []) 30 20 9 ∷ []) small_surface
      (omega arith)
