-- ===== src/Boot.antt =====
-- The boot code, kernel/src/boot/entry.c: what the windows show, the first files and windows, and the
-- event loop. `widen` gives the 64-bit word in which an `int` is passed, `cmos` the clock's registers.
pub mod Loop
pub mod Unreached
pub mod Unspaced
pub mod Keys
pub mod Files
mod Tests
use chef_os.Prelude.{ℕ, List, [], ◌∷◌, ◌++◌, Option, none, some, bytes}
use chef_os.Text.Kprintf.{str_arg}
use chef_os.Video.Fb.{
  color_surface, color_text, color_text_muted, color_accent, color_green, color_blue,
}
use chef_os.Compositor.Surface.{Surface, surface_clear, surface_draw_string}
use chef_os.Compositor.Window.{Window, window_create}
use chef_os.Compositor.Desktop.{Desktop, register_window}
use chef_os.Sys.{System, kprintf, and_then, print_lines}

-- A line of text on a surface: its bytes, its place from the top, and its colour.
pub record Line : Type 0 where
  pub text : List ℕ
  pub y : ℕ
  pub color : ℕ

-- `surface_draw_string` of each line.
unfoldable pub draw_lines : List Line → Option Surface → Option Surface
unfolding surface_draw_string
draw_lines [] s = s
draw_lines (l ∷ ls) s = draw_lines ls (surface_draw_string s l.text 16 l.y l.color)

-- Without a surface nothing is painted.
abbrev pub paint_lines : List Line → Option Surface → Option Surface
paint_lines ls s = draw_lines ls (surface_clear s color_surface)

abbrev pub terminal_lines : List Line
terminal_lines =
    record { text = bytes "Chef OS 1.0 (Warm Parchment) x86_64"; y = 12; color = color_text }
    ∷ record {
      text = bytes "Kernel higher-half micro-core online.";
      y = 32;
      color = color_text_muted;
    }
    ∷ record {
      text = bytes "PID 1 init supervisor running: klogd, compositor, chef-sh";
      y = 52;
      color = color_text_muted;
    }
    ∷ record {
      text = bytes "Dynamic Tiling Engine: Master-Stack Layout active.";
      y = 72;
      color = color_text_muted;
    }
    ∷ record { text = bytes "chef-os> uname"; y = 102; color = color_accent }
    ∷ record {
      text = bytes "Chef OS 1.0.0-alpha x86_64 (Warm Parchment)";
      y = 122;
      color = color_text;
    }
    ∷ record { text = bytes "chef-os> cat /etc/os-release"; y = 152; color = color_accent }
    ∷ record {
      text = bytes "NAME=\"Chef OS\" VERSION=\"1.0.0-alpha\" ID=chef-os";
      y = 172;
      color = color_text;
    }
    ∷ record { text = bytes "chef-os> _"; y = 202; color = color_text }
    ∷ []

abbrev pub paint_terminal_window : Option Surface → Option Surface
paint_terminal_window s = paint_lines terminal_lines s

abbrev pub system_lines : List Line
system_lines =
    record { text = bytes "CPU: x86_64 Core [ONLINE]"; y = 12; color = color_text }
    ∷ record { text = bytes "RAM: 2016 MB (1991 MB Free)"; y = 32; color = color_text }
    ∷ record { text = bytes "Timer: 1000 Hz PIT (1ms)"; y = 52; color = color_text_muted }
    ∷ record { text = bytes "RTC: CMOS UTC Active"; y = 72; color = color_text_muted }
    ∷ record { text = bytes "Status: Nominal | Ring 3 Ready"; y = 92; color = color_green }
    ∷ []

abbrev pub paint_system_window : Option Surface → Option Surface
paint_system_window s = paint_lines system_lines s

abbrev pub vfs_lines : List Line
vfs_lines =
    record { text = bytes "Mount: / (RamFS Root)"; y = 12; color = color_text }
    ∷ record { text = bytes "  |-- /bin/  [Binaries]"; y = 32; color = color_text_muted }
    ∷ record { text = bytes "  |-- /dev/  [serial, kbd, ata0]"; y = 52; color = color_text_muted }
    ∷ record { text = bytes "  |-- /etc/  [os-release]"; y = 72; color = color_text_muted }
    ∷ record { text = bytes "Storage: /dev/ata0 [READY]"; y = 92; color = color_blue }
    ∷ []

abbrev pub paint_vfs_window : Option Surface → Option Surface
paint_vfs_window s = paint_lines vfs_lines s

-- A new window that is painted, and registered.
abbrev pub add_window :
    (x y w h : ℕ) (title : List ℕ) (paint : Option Surface → Option Surface)
    → Desktop × ℕ
    → Desktop × ℕ
add_window x y w h title paint (d, next_id) =
    let made = window_create next_id x y w h (some title) in
    (
      register_window
          (some (record (made.0) {
            workspace_id = 1;
            paint = some paint;
            surface = paint (made.0).surface;
          }))
          d,
      made.1,
    )

-- The three windows, with the value of `s_next_window_id`.
unfoldable pub boot_windows : Desktop × ℕ → Desktop × ℕ
unfolding window_create register_window
boot_windows d =
    add_window 88 60 720 480 (bytes "Chef OS Parchment Terminal (chef-sh)") paint_terminal_window (
      add_window 828 60 420 230 (bytes "System Performance Monitor") paint_system_window
        (add_window 828 305 420 235 (bytes "VFS Storage Explorer (/dev, /etc)") paint_vfs_window d))

abbrev panic_head : List (List ℕ)
panic_head =
    bytes "\n======================================================\n"
    ∷ bytes "                CHEF OS KERNEL PANIC                  \n"
    ∷ bytes "======================================================\n"
    ∷ []

-- What `panic` prints before the processor halts.
unfoldable pub panic : List ℕ → System → Option System
unfolding print_lines kprintf
panic msg s = and_then (print_lines panic_head s) (λ s1.
    and_then (kprintf (bytes "Reason: %s\n") (str_arg (some msg) ∷ []) s1)
      (print_lines (bytes "System halted. Please power off or restart.\n" ∷ [])))
