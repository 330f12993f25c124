-- ===== src/Compositor/ShellUi.antt =====
-- The dock and the island, kernel/src/compositor/shell_ui.c. The tick counter and the CMOS registers are
-- those of the drivers; a string is the list of its bytes.
use chef_os.Prelude.{
  ℕ, ◌+◌, ◌/◌, ◌%◌, leb, if◌then◌else◌, Bool, true, false, ◌&&◌, List, [], ◌∷◌, ◌++◌, Option, none,
  some, take, u8, u32, sub32, u64, bytes,
}
use chef_os.Drivers.Rtc.{RtcTime, rtc_get_time}
use chef_os.Video.Fb.{
  FbInfo, color_surface, color_surface_alt, color_text, color_accent, color_border,
}
use chef_os.Video.Fb.Drawing.{Drawing, rounded_rect, string, draw_all}
use chef_os.Video.Fb.DesktopShell.{dock_frame, ws_labels, pills, dock_controls, controls_y}

-- No code sets `ISLAND_AUDIO`.
pub data IslandState : Type 0 where
  island_idle island_audio island_toast : IslandState

pub record ShellUi : Type 0 where
  pub island_state : IslandState
  pub island_msg : List ℕ
  pub toast_expiry_tick : ℕ
  pub launcher_open : Bool

unfoldable pub shell_ui_init : ShellUi
shell_ui_init = record {
  island_state = island_idle;
  island_msg = [];
  toast_expiry_tick = 0;
  launcher_open = false;
}

-- The array is zeroed before and its last byte is never written.
unfoldable pub show_toast : (ticks : ℕ) → Option (List ℕ) → (duration_ms : ℕ) → ShellUi → ShellUi
show_toast ticks none duration_ms s = s
show_toast ticks (some msg) duration_ms s = record s {
  island_msg = take 127 msg;
  island_state = island_toast;
  toast_expiry_tick = u64 (ticks + duration_ms);
}

-- The three launchers.
abbrev app_launchers : List Drawing
app_launchers =
    rounded_rect 26 274 28 28 color_surface_alt color_border
    ∷ string (bytes ">") 36 280 color_text 0
    ∷ rounded_rect 26 310 28 28 color_surface_alt color_border
    ∷ string (bytes "#") 36 316 color_text 0
    ∷ rounded_rect 26 346 28 28 color_surface_alt color_border
    ∷ string (bytes "/") 36 352 color_text 0
    ∷ []

abbrev pub dock : (screen_h active_ws : ℕ) → List Drawing
dock screen_h active_ws =
    dock_frame (sub32 screen_h 24)
    ++ pills ws_labels 0 active_ws
    ++ app_launchers
    ++ dock_controls (controls_y (sub32 screen_h 24))

unfoldable pub render_dock : (screen_h active_ws : ℕ) → FbInfo → FbInfo
unfolding draw_all
render_dock screen_h active_ws f = draw_all (dock screen_h active_ws) f

abbrev pub is_toast : IslandState → Bool
is_toast island_toast = true
is_toast island_idle = false
is_toast island_audio = false

-- The toast is over at its tick.
unfoldable pub expire : (ticks : ℕ) → ShellUi → ShellUi
expire ticks s =
    if is_toast s.island_state && leb s.toast_expiry_tick ticks
    then record s { island_state = island_idle }
    else s

-- Two digits of a number.
abbrev two_digits : ℕ → List ℕ
two_digits n = u8 (48 + n / 10) ∷ u8 (48 + n % 10) ∷ []

abbrev pub win_name : Option (List ℕ) → List ℕ
win_name none = bytes "Chef OS"
win_name (some []) = bytes "Chef OS"
win_name (some (c ∷ cs)) = c ∷ cs

-- `<Title>  [<Layout>]  ::  <HH:MM>`
unfoldable pub island_line : RtcTime → (title : Option (List ℕ)) → (layout_name : List ℕ) → List ℕ
island_line now title layout_name =
    take 18 (win_name title)
    ++ bytes " ["
    ++ layout_name
    ++ bytes "]  ::  "
    ++ two_digits now.hour
    ++ bytes ":"
    ++ two_digits now.minute

abbrev pub island_x : (screen_w island_w : ℕ) → ℕ
island_x screen_w island_w = sub32 screen_w island_w / 2

-- The island, once the toast has been looked at.
abbrev pub island :
    (screen_w : ℕ)
    → RtcTime
    → (title : Option (List ℕ)) → (layout_name : List ℕ) → ShellUi
    → List Drawing
island screen_w now title layout_name s =
    if is_toast s.island_state
    then rounded_rect (island_x screen_w 440) 12 440 36 color_surface_alt color_border
      ∷ string s.island_msg (u32 (island_x screen_w 440 + 24)) 22 color_accent 0
      ∷ []
    else rounded_rect (island_x screen_w 380) 12 380 36 color_surface color_border
      ∷ string (island_line now title layout_name) (u32 (island_x screen_w 380 + 24)) 22 color_text
          0
      ∷ []

unfoldable pub render_island :
    (cmos : ℕ → ℕ) (ticks screen_w : ℕ)
    → (title : Option (List ℕ)) → (layout_name : List ℕ) → ShellUi
    → FbInfo
    → ShellUi × FbInfo
unfolding expire draw_all rtc_get_time island_line
render_island cmos ticks screen_w title layout_name s f = (
  expire ticks s,
  draw_all (island screen_w (rtc_get_time cmos) title layout_name (expire ticks s)) f,
)
