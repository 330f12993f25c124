-- ===== src/Sys.antt =====
-- The state that the shell's commands and the system calls work on, and `kprintf` of
-- kernel/src/sys/kprintf.c, which prints to the serial port and the console.
pub mod Print
pub mod Syscall
pub mod Isolated
pub mod Isolation
pub mod Registers
pub mod Calls
pub mod Sample
mod Tests
use chef_os.Prelude.{ℕ, List, [], ◌∷◌, ◌++◌, Option, none, some}
use chef_os.Text.Kprintf.{Output, Arg, kvprintf}
use chef_os.Fs.Vfs.{Vfs}
use chef_os.Video.Fb.{FbInfo, fb_puts, fb_swap}
use chef_os.Proc.Process.{Processes, Service}
use chef_os.Mm.Pmm.{Pmm}
use chef_os.Drivers.Timer.{PortWrite}
use chef_os.Drivers.Polling.{Ports}
use chef_os.Drivers.Serial.{putc_all}

-- The serial port: what each read of its status answers, its registers, and how many reads one wait of
-- `serial_putc` may take.
pub record Line : Type 0 where
  pub fuel : ℕ
  pub status : ℕ → ℕ
  pub registers : Ports

-- The files with the keyboard's character and the bytes sent to the serial port, the screen, the
-- memory byte by byte, the lists of processes and services, the page allocator, and the writes to
-- other ports. `memory` is what a program reaches by an address. The bytes of the other fields lie in it
-- too, at addresses that the kernel keeps to itself; that they change with the fields is not modelled.
pub record System : Type 0 where
  pub vfs : Vfs
  pub fb : FbInfo
  pub memory : ℕ → ℕ
  pub processes : Processes
  pub services : List Service
  pub pmm : Pmm
  pub ports : List PortWrite
  pub line : Line

abbrev pub with_serial : List ℕ → Vfs → Vfs
with_serial bytes v = record v { serial = v.serial ++ bytes }

-- The bytes are sent, and the port's registers are `p`.
abbrev pub sent : List ℕ → System → Option Ports → Option System
sent bytes s none = none
sent bytes s (some p) =
    some (record s { vfs = with_serial bytes s.vfs; line = record (s.line) { registers = p } })

-- `serial_putc` of each byte; `none` where a wait for the transmitter does not end.
unfoldable pub send_serial : List ℕ → System → Option System
unfolding putc_all
send_serial bytes s = sent bytes s (putc_all s.line.fuel s.line.status bytes s.line.registers)

-- The text on the console, and the frame after all of it.
abbrev pub show : List ℕ → System → System
show text s = record s { fb = fb_swap (fb_puts text s.fb) }

-- The calls one after another.
abbrev pub and_then : Option System → (System → Option System) → Option System
and_then none f = none
and_then (some s) f = f s

unfoldable pub print_text : (serial console : List ℕ) → System → Option System
unfolding send_serial fb_puts fb_swap
print_text serial console s = and_then (send_serial serial s) (λ t. some (show console t))

abbrev pub print_result : Option Output → System → Option System
print_result none s = none
print_result (some o) s = print_text o.serial o.console s

-- `none` where `kvprintf` reads past the format or its arguments, or a byte is never sent.
unfoldable pub kprintf : List ℕ → List Arg → System → Option System
unfolding kvprintf print_text
kprintf fmt args s = print_result (kvprintf fmt args) s

-- `kprintf` of each text, which has no percent sign.
unfoldable pub print_lines : List (List ℕ) → System → Option System
unfolding kprintf
print_lines [] s = some s
print_lines (l ∷ ls) s = and_then (kprintf l [] s) (print_lines ls)
