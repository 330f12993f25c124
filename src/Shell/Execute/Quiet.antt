-- ===== src/Shell/Execute/Quiet.antt =====
-- What a command of the shell can change.
use chef_os.Prelude.{ℕ, ◌≡◌, refl, ap, ◌∙◌, sym, List, [], ◌++◌, length, Option, some}
use mathlib.Core.List.{append_assoc, append-nil}
use chef_os.Fs.Vfs.{Vfs, entry}
use chef_os.Fs.Vfs.Kept.{SameNodes}
use chef_os.Drivers.Timer.{PortWrite}
use chef_os.Video.Fb.{FbInfo}
use chef_os.Video.Fb.Inside.{Inside}
use chef_os.Video.Fb.Drawing.{draw_all, draw_all-Inside}
use chef_os.Video.Fb.Bounded.{Bounded, Bounded-refl, Bounded-trans, Inside-Bounded, swap-Bounded}
use chef_os.Video.Fb.DesktopShell.{desktop_shell, fb_draw_desktop_shell}
use chef_os.Sys.{System}
use chef_os.Sys.Print.{IsReady, PrintedOnly, Prints}
use chef_os.Shell.Execute.{set_vfs, then_ports}

-- The files, the memory, the processes, services and pages are the same, each descriptor names what
-- it named, the screen differs in its pixels only, and bytes were sent and ports written at most.
pub record Quiet (s t : System) : Type 0 where
  pub store : t.vfs.store ≡ s.vfs.store
  pub root : t.vfs.root ≡ s.vfs.root
  pub size : length t.vfs.table ≡ length s.vfs.table
  pub nodes : (j : ℕ) → (entry t.vfs j).node ≡ (entry s.vfs j).node
  pub serial : (sent : List ℕ) × (t.vfs.serial ≡ s.vfs.serial ++ sent)
  pub fb : Bounded s.fb t.fb
  pub memory : t.memory ≡ s.memory
  pub processes : t.processes ≡ s.processes
  pub services : t.services ≡ s.services
  pub pmm : t.pmm ≡ s.pmm
  pub ports : (written : List PortWrite) × (t.ports ≡ s.ports ++ written)
  pub line_fuel : t.line.fuel ≡ s.line.fuel
  pub line_status : t.line.status ≡ s.line.status

pub Quiet-printed : (s t : System) → PrintedOnly s t → Quiet s t
Quiet-printed s t p = record {
  store = ap (λ v. v.store) p.vfs;
  root = ap (λ v. v.root) p.vfs;
  size = ap (λ v. length v.table) p.vfs;
  nodes = λ j. ap (λ v. (entry v j).node) p.vfs;
  serial = (p.sent, ap (λ v. v.serial) p.vfs);
  fb = p.fb;
  memory = p.memory;
  processes = p.processes;
  services = p.services;
  pmm = p.pmm;
  ports = ([], p.ports ∙ sym (append-nil s.ports));
  line_fuel = p.line_fuel;
  line_status = p.line_status;
}

pub Quiet-trans : (s t u : System) → Quiet s t → Quiet t u → Quiet s u
Quiet-trans s t u p q =
    let (a, ea) = p.serial in
    let (b, eb) = q.serial in
    let (c, ec) = p.ports in
    let (d, ed) = q.ports in
    record {
      store = q.store ∙ p.store;
      root = q.root ∙ p.root;
      size = q.size ∙ p.size;
      nodes = λ j. q.nodes j ∙ p.nodes j;
      serial = (a ++ b, eb ∙ ap (λ l. l ++ b) ea ∙ append_assoc s.vfs.serial a b);
      fb = Bounded-trans s.fb t.fb u.fb p.fb q.fb;
      memory = q.memory ∙ p.memory;
      processes = q.processes ∙ p.processes;
      services = q.services ∙ p.services;
      pmm = q.pmm ∙ p.pmm;
      ports = (c ++ d, ed ∙ ap (λ l. l ++ d) ec ∙ append_assoc s.ports c d);
      line_fuel = q.line_fuel ∙ p.line_fuel;
      line_status = q.line_status ∙ p.line_status;
    }

pub Quiet-IsReady : (s t : System) → Quiet s t → IsReady s → IsReady t
Quiet-IsReady s t p ready = rw (p.line_fuel, p.line_status) ready

-- A command that ends where the port is ready, and leaves the rest alone.
abbrev pub Ends : System → Option System → Type 0
Ends s r = IsReady s → (t : System) × (r ≡ some t) × Quiet s t

pub Prints-Ends : (s : System) (r : Option System) → Prints s r → Ends s r
Prints-Ends s r pr ready = let (t, e, p) = pr ready in (t, e, Quiet-printed s t p)

-- The files as they were, but for the state of the descriptors and of the keyboard.
pub set_vfs-Quiet : (s : System) (v : Vfs) → SameNodes s.vfs v → Quiet s (set_vfs v s)
set_vfs-Quiet s v p = record {
  store = p.store;
  root = p.root;
  size = p.size;
  nodes = p.nodes;
  serial = ([], p.serial ∙ sym (append-nil s.vfs.serial));
  fb = Bounded-refl s.fb;
  memory = refl;
  processes = refl;
  services = refl;
  pmm = refl;
  ports = ([], sym (append-nil s.ports));
  line_fuel = refl;
  line_status = refl;
}

pub then_ports-Ends :
    (s : System) (ws : List PortWrite) (r : Option System) → Prints s r → Ends s (then_ports ws r)
then_ports-Ends s ws r pr ready =
    let (t, e, p) = pr ready in
    let q = Quiet-printed s t p in
    (
      record t { ports = t.ports ++ ws },
      ap (then_ports ws) e,
      record {
        store = q.store;
        root = q.root;
        size = q.size;
        nodes = q.nodes;
        serial = q.serial;
        fb = q.fb;
        memory = q.memory;
        processes = q.processes;
        services = q.services;
        pmm = q.pmm;
        ports = (ws, ap (λ l. l ++ ws) p.ports);
        line_fuel = q.line_fuel;
        line_status = q.line_status;
      },
    )

pub desktop_shell-Bounded : (f : FbInfo) → Bounded f (fb_draw_desktop_shell f)
unfolding fb_draw_desktop_shell
desktop_shell-Bounded f =
    let drawn = draw_all (desktop_shell f.width f.height) f in
    let p = draw_all-Inside (desktop_shell f.width f.height) f in
    let placed : Inside f (record drawn { cursor_x = 104; cursor_y = 102 }) = record {
      width = p.width;
      height = p.height;
      pitch = p.pitch;
      front = p.front;
      behind = p.behind;
    } in
    Bounded-trans f (record drawn { cursor_x = 104; cursor_y = 102 }) _ (Inside-Bounded f _ placed)
      (swap-Bounded _)
