-- ===== src/Compositor/Window.antt =====
-- Windows and their surfaces as the compositor moves and sizes them: `window_t` of
-- kernel/include/compositor/window.h and kernel/src/compositor/window.c, when memory lasts. A
-- window's address is its `id`.
use chef_os.Prelude.{
  ℕ, ◌*◌, ◌==◌, Bool, true, false, not, ◌||◌, if◌then◌else◌, Option, none, some, List, [], ◌∷◌,
  ◌++◌, u32, sub32, ◌+◌, take,
}
use chef_os.Compositor.Surface.{
  Surface, zeroed, surface_flag_window, Freed, surface_destroy, window_memory,
}

-- The paint functions draw on the window's surface, where it has one.
pub record Window : Type 0 where
  pub id : ℕ
  pub surface : Option Surface
  pub x : ℕ
  pub y : ℕ
  pub width : ℕ
  pub height : ℕ
  pub workspace_id : ℕ
  pub is_focused : Bool
  pub is_minimized : Bool
  pub title : List ℕ
  pub paint : Option (Option Surface → Option Surface)

abbrev pub border_width : ℕ
border_width = 1

abbrev pub titlebar_height : ℕ
titlebar_height = 28

-- `surface_create` of that size and `SURFACE_FLAG_WINDOW`.
abbrev pub content_surface : ℕ → ℕ → Surface
content_surface w h =
    zeroed true (sub32 w (2 * border_width)) (sub32 (sub32 h titlebar_height) border_width)
      surface_flag_window

-- Whether the surface is replaced, and the window painted again.
abbrev pub needs_surface : Option Surface → Surface → Bool
needs_surface none s = true
needs_surface (some old) s = not (old.width == s.width) || not (old.height == s.height)

abbrev pub painted : Option (Option Surface → Option Surface) → Option Surface → Option Surface
painted none s = s
painted (some f) s = f s

unfoldable pub resize_surface : Window → ℕ → ℕ → Window
resize_surface win w h =
    let fresh = content_surface w h in
    record win {
      width = w;
      height = h;
      surface =
          if needs_surface win.surface fresh then painted win.paint (some fresh) else win.surface;
    }

-- `strncpy` of at most 63 bytes to zeroed memory.
abbrev pub title_of : Option (List ℕ) → List ℕ
title_of none = []
title_of (some title) = take 63 title

-- `window_create` with the next value of `s_next_window_id`.
unfoldable pub window_create : (next_id x y w h : ℕ) → Option (List ℕ) → Window × ℕ
window_create next_id x y w h title = (
  record {
    id = next_id;
    surface = some (content_surface w h);
    x = x;
    y = y;
    width = w;
    height = h;
    workspace_id = 1;
    is_focused = true;
    is_minimized = false;
    title = title_of title;
    paint = none;
  },
  u32 (next_id + 1),
)

unfoldable pub window_set_focus : Window → Bool → Window
window_set_focus win focused = record win { is_focused = focused }

unfoldable pub window_destroy : Option Window → List Freed
unfolding surface_destroy
window_destroy none = []
window_destroy (some win) = surface_destroy win.surface ++ (window_memory ∷ [])
