-- ===== src/Compositor/Desktop.antt =====
-- The compositor's state and the calls that change it, kernel/src/compositor/compositor.c. The list
-- of windows is in the order of the `next` pointers, and a window's address is its `id`.
pub mod Focus
use chef_os.Prelude.{
  ℕ, ◌+◌, ◌/◌, ◌==◌, leb, if◌then◌else◌, Bool, true, false, ◌&&◌, List, [], ◌∷◌, Option, none, some,
  u32,
}
use chef_os.Compositor.Window.{Window, content_surface}

pub record Desktop : Type 0 where
  pub screen_width : ℕ
  pub screen_height : ℕ
  pub active_workspace : ℕ
  pub windows : List Window
  pub focused : Option ℕ
  pub mouse_x : ℕ
  pub mouse_y : ℕ
  pub needs_redraw : Bool

-- `compositor_init` for a screen of that size, or 1280 by 800 without one.
abbrev pub screen_of : Option (ℕ × ℕ) → ℕ × ℕ
screen_of none = (1280, 800)
screen_of (some (w, h)) = (u32 w, u32 h)

unfoldable pub compositor_init : Option (ℕ × ℕ) → Desktop
compositor_init fb =
    let (w, h) = screen_of fb in
    record {
      screen_width = w;
      screen_height = h;
      active_workspace = 1;
      windows = [];
      focused = none;
      mouse_x = w / 2;
      mouse_y = h / 2;
      needs_redraw = true;
    }

unfoldable pub register_window : Option Window → Desktop → Desktop
register_window none d = d
register_window (some w) d = record d {
  windows = w ∷ d.windows;
  focused = some w.id;
  needs_redraw = true;
}

unfoldable pub set_mouse : (x y : ℕ) → Desktop → Desktop
set_mouse x y d = record d { mouse_x = x; mouse_y = y }

unfoldable pub set_workspace : ℕ → Desktop → Desktop
set_workspace ws d =
    if leb 1 ws && leb ws 4 then record d { active_workspace = ws; needs_redraw = true } else d

abbrev pub head_id : List Window → Option ℕ
head_id [] = none
head_id (w ∷ ws) = some w.id

-- `focused_window->next`
unfoldable pub next_of : List Window → ℕ → Option ℕ
next_of [] id = none
next_of (w ∷ ws) id = let rest = next_of ws id in if w.id == id then head_id ws else rest

abbrev pub focused_next : Desktop → Option ℕ → Option ℕ
focused_next d none = none
focused_next d (some id) = next_of d.windows id

abbrev pub or_first : Option ℕ → List Window → Option ℕ
or_first none ws = head_id ws
or_first (some id) ws = some id

abbrev pub has_windows : List Window → Bool
has_windows [] = false
has_windows (w ∷ ws) = true

unfoldable pub cycle_focus : Desktop → Desktop
unfolding next_of
cycle_focus d =
    if has_windows d.windows
    then record d { focused = or_first (focused_next d d.focused) d.windows; needs_redraw = true }
    else d
