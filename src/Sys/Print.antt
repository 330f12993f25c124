-- ===== src/Sys/Print.antt =====
-- What printing changes: the bytes sent to the serial port and the screen.
use chef_os.Prelude.{ℕ, ◌≡◌, refl, ap, ◌∙◌, sym, List, [], ◌∷◌, ◌++◌, Option, some, true, false}
use mathlib.Core.List.{append_assoc, append-nil}
use chef_os.Text.Kprintf.{Arg}
use chef_os.Text.Kprintf.Total.{fits, AllWords, kvprintf-IsSome}
use chef_os.Video.Fb.{fb_puts, fb_swap}
use chef_os.Video.Fb.Drawing.{puts-Inside}
use chef_os.Video.Fb.Bounded.{Bounded, Bounded-refl, Bounded-trans, Inside-Bounded, swap-Bounded}
use chef_os.Drivers.Polling.{Shows}
use chef_os.Drivers.Serial.{is_transmit_empty, putc_all-Sent}
use chef_os.Sys.{
  System, with_serial, sent, send_serial, show, print_text, print_result, kprintf, and_then,
  print_lines,
}

-- The transmitter of the serial port shows itself empty in one of as many reads of its status as a wait
-- may take, from each read on.
abbrev pub IsReady : System → Type 0
IsReady s = Shows s.line.fuel is_transmit_empty s.line.status

-- Only the bytes sent to the serial port and the pixels differ, and more bytes were sent.
pub record PrintedOnly (s t : System) : Type 0 where
  pub sent : List ℕ
  pub vfs : t.vfs ≡ with_serial sent s.vfs
  pub fb : Bounded s.fb t.fb
  pub memory : t.memory ≡ s.memory
  pub processes : t.processes ≡ s.processes
  pub services : t.services ≡ s.services
  pub pmm : t.pmm ≡ s.pmm
  pub ports : t.ports ≡ s.ports
  pub line_fuel : t.line.fuel ≡ s.line.fuel
  pub line_status : t.line.status ≡ s.line.status

pub PrintedOnly-refl : (s : System) → PrintedOnly s s
PrintedOnly-refl s = record {
  sent = [];
  vfs = ap (λ b. record (s.vfs) { serial = b }) (sym (append-nil s.vfs.serial));
  fb = Bounded-refl s.fb;
  memory = refl;
  processes = refl;
  services = refl;
  pmm = refl;
  ports = refl;
  line_fuel = refl;
  line_status = refl;
}

pub PrintedOnly-trans : (s t u : System) → PrintedOnly s t → PrintedOnly t u → PrintedOnly s u
PrintedOnly-trans s t u p q = record {
  sent = p.sent ++ q.sent;
  vfs =
      q.vfs
      ∙ ap (with_serial q.sent) p.vfs
      ∙ ap (λ b. record (s.vfs) { serial = b }) (append_assoc s.vfs.serial p.sent q.sent);
  fb = Bounded-trans s.fb t.fb u.fb p.fb q.fb;
  memory = q.memory ∙ p.memory;
  processes = q.processes ∙ p.processes;
  services = q.services ∙ p.services;
  pmm = q.pmm ∙ p.pmm;
  ports = q.ports ∙ p.ports;
  line_fuel = q.line_fuel ∙ p.line_fuel;
  line_status = q.line_status ∙ p.line_status;
}

pub PrintedOnly-IsReady : (s t : System) → PrintedOnly s t → IsReady s → IsReady t
PrintedOnly-IsReady s t p ready = rw (p.line_fuel, p.line_status) ready

-- The outcome of printing, where the port is ready.
abbrev pub Prints : System → Option System → Type 0
Prints s r = IsReady s → (t : System) × (r ≡ some t) × PrintedOnly s t

pub Prints-same : (s : System) → Prints s (some s)
Prints-same s ready = (s, refl, PrintedOnly-refl s)

pub text-Bounded : (text : List ℕ) (s : System) → Bounded s.fb (fb_swap (fb_puts text s.fb))
text-Bounded text s =
    Bounded-trans s.fb (fb_puts text s.fb) _ (Inside-Bounded s.fb _ (puts-Inside text s.fb))
      (swap-Bounded (fb_puts text s.fb))

pub print_text-Prints :
    (serial console : List ℕ) (s : System) → Prints s (print_text serial console s)
unfolding print_text send_serial
print_text-Prints serial console s ready =
    let (q, e, w, waits) = putc_all-Sent s.line.fuel s.line.status ready serial s.line.registers in
    (
      show console
          (record s { vfs = with_serial serial s.vfs; line = record (s.line) { registers = q } }),
      ap (λ r. and_then (sent serial s r) (λ t. some (show console t))) e,
      record {
        sent = serial;
        vfs = refl;
        fb = text-Bounded console s;
        memory = refl;
        processes = refl;
        services = refl;
        pmm = refl;
        ports = refl;
        line_fuel = refl;
        line_status = refl;
      },
    )

-- A call of `kprintf` whose arguments fit its format prints, and does nothing else.
pub kprintf-Prints :
    (fmt : List ℕ) (args : List Arg) (s : System)
    → fits false fmt args ≡ true
    → AllWords args
    → Prints s (kprintf fmt args s)
unfolding kprintf
kprintf-Prints fmt args s f w ready =
    let (o, e) = kvprintf-IsSome fmt args f w in
    let (t, d, p) = print_text-Prints o.serial o.console s ready in
    (t, ap (λ r. print_result r s) e ∙ d, p)

pub and_then-Prints :
    (s : System) (r : Option System) (f : System → Option System)
    → Prints s r
    → ((t : System) → Prints t (f t))
    → Prints s (and_then r f)
and_then-Prints s r f pr h ready =
    let (t, e, p) = pr ready in
    let (u, d, q) = h t (PrintedOnly-IsReady s t p ready) in
    (u, ap (λ o. and_then o f) e ∙ d, PrintedOnly-trans s t u p q)

-- The texts have no percent sign.
abbrev pub AllPlain : List (List ℕ) → Type 0
AllPlain [] = Unit
AllPlain (l ∷ ls) = (fits false l [] ≡ true) × AllPlain ls

pub print_lines-Prints :
    (ls : List (List ℕ)) → AllPlain ls → (s : System) → Prints s (print_lines ls s)
unfolding print_lines
print_lines-Prints [] h s = Prints-same s
print_lines-Prints (l ∷ ls) h s =
    and_then-Prints s (kprintf l [] s) (print_lines ls) (kprintf-Prints l [] s h.0 tt)
      (print_lines-Prints ls h.1)
