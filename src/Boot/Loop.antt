-- ===== src/Boot/Loop.antt =====
-- The event loop of `kmain`: the pointer and the last key, and a new frame after each key.
use chef_os.Prelude.{
  ℕ, ◌-◌, ◌==◌, leb, ◌&&◌, if◌then◌else◌, List, [], ◌∷◌, Option, none, some, bytes,
}
use chef_os.Drivers.Keyboard.{keyboard_callback, get_last_char}
use chef_os.Drivers.Mouse.{Mouse}
use chef_os.Compositor.Layout.{LayoutEngine, layout_cycle_mode}
use chef_os.Compositor.ShellUi.{ShellUi}
use chef_os.Compositor.Desktop.{Desktop, set_mouse, set_workspace, cycle_focus}
use chef_os.Compositor.Render.{Graphics, render_frame}
use chef_os.Shell.{Shell}
use chef_os.Shell.Execute.{shell_handle_char}
use chef_os.Sys.{System, kprintf}
use chef_os.Text.Kprintf.{int_arg}

pub record Machine : Type 0 where
  pub sys : System
  pub desktop : Desktop
  pub engine : LayoutEngine
  pub shell_ui : ShellUi
  pub shell : Shell
  pub mouse : Mouse
  pub ticks : ℕ

abbrev pub graphics_of : Machine → Graphics
graphics_of m = record {
  desktop = m.desktop;
  engine = m.engine;
  shell = m.shell_ui;
  fb = (m.sys).fb;
}

-- `compositor_render_frame`
abbrev pub render : (cmos : ℕ → ℕ) → Machine → Machine
render cmos m =
    let g = render_frame cmos m.ticks (graphics_of m) in
    record m { sys = record (m.sys) { fb = g.fb }; desktop = g.desktop; shell_ui = g.shell }

abbrev pub to_shell : Option (Shell × System) → Machine → Option Machine
to_shell none m = none
to_shell (some (sh, s)) m = some (record m { shell = sh; sys = s })

-- The tests of the character, in order: the digits 1 to 4, the space, the tabulator.
unfoldable pub handle_key : (widen cmos : ℕ → ℕ) → (c : ℕ) → Machine → Option Machine
unfolding set_workspace layout_cycle_mode cycle_focus shell_handle_char
handle_key widen cmos c m =
    if leb 49 c && leb c 52
    then some (record m { desktop = set_workspace (c - 48) m.desktop })
    else if c == 32
    then some (record m { engine = layout_cycle_mode m.engine })
    else if c == 9
    then some (record m { desktop = cycle_focus m.desktop })
    else to_shell (shell_handle_char widen cmos c m.shell m.sys) m

abbrev pub rendered : (cmos : ℕ → ℕ) → Option Machine → Option Machine
rendered cmos none = none
rendered cmos (some m) = some (render cmos m)

-- The pointer's place, and the character taken from the keyboard.
abbrev pub polled : Machine → Machine
polled m = record m {
  sys = record (m.sys) {
    vfs = record (m.sys.vfs) { last_char = (get_last_char m.sys.vfs.last_char).1 };
  };
  desktop = set_mouse m.mouse.state.x m.mouse.state.y m.desktop;
}

-- One round of `while (1)`, up to the halt.
unfoldable pub round : (widen cmos : ℕ → ℕ) → Machine → Option Machine
unfolding handle_key render_frame get_last_char set_mouse
round widen cmos m =
    if (get_last_char m.sys.vfs.last_char).0 == 0
    then some (polled m)
    else rendered cmos (handle_key widen cmos (get_last_char m.sys.vfs.last_char).0 (polled m))

-- `kprintf("%c", c)` of the character that the callback prints, if it does.
abbrev pub echo_key : (widen : ℕ → ℕ) → List ℕ → System → Option System
echo_key widen [] s = some s
echo_key widen (c ∷ cs) s = kprintf (bytes "%c") (int_arg (widen c) ∷ []) s

abbrev pub with_sys : Machine → Option System → Option Machine
with_sys m none = none
with_sys m (some s) = some (record m { sys = s })

abbrev pub with_last_char : (c : ℕ) → System → System
with_last_char c s = record s { vfs = record (s.vfs) { last_char = c } }

-- The interrupt of a key that ends the halt.
unfoldable pub key_pressed : (widen : ℕ → ℕ) → (scancode : ℕ) → Machine → Option Machine
unfolding keyboard_callback kprintf
key_pressed widen scancode m =
    let pressed = keyboard_callback scancode m.sys.vfs.last_char in
    with_sys m (echo_key widen pressed.1 (with_last_char pressed.0 m.sys))

abbrev pub then_round : (widen cmos : ℕ → ℕ) → Option Machine → Option Machine
then_round widen cmos none = none
then_round widen cmos (some m) = round widen cmos m

-- Keys pressed one after another, with a round after each.
unfoldable pub run_keys : (widen cmos : ℕ → ℕ) → List ℕ → Machine → Option Machine
unfolding round key_pressed
run_keys widen cmos [] m = some m
run_keys widen cmos (k ∷ ks) m = elim (then_round widen cmos (key_pressed widen k m)) [
  | none ↦ none
  | some n ↦ run_keys widen cmos ks n
]
