-- ===== src/Shell/Listing.antt =====
-- `process_list` of kernel/src/proc/process.c and `init_list_services` of kernel/src/proc/init.c.
-- `widen` gives the 64-bit word in which an `int` is passed, whose upper half C leaves open.
use chef_os.Prelude.{ℕ, ◌/◌, if◌then◌else◌, List, [], ◌∷◌, Option, some, u32, bytes}
use chef_os.Text.Kprintf.{Arg, int_arg, str_arg}
use chef_os.Proc.Process.{ProcState, ready, running, sleeping, zombie, stopped, Process, Service}
use chef_os.Sys.{System, kprintf, and_then, print_lines}

abbrev pub state_str : ProcState → List ℕ
state_str running = bytes "RUNNING"
state_str ready = bytes "READY"
state_str sleeping = bytes "READY"
state_str zombie = bytes "READY"
state_str stopped = bytes "READY"

abbrev pub process_args : (widen : ℕ → ℕ) → Process → List Arg
process_args widen p =
    int_arg (widen p.pid)
    ∷ int_arg (widen p.ppid)
    ∷ str_arg (some (state_str p.state))
    ∷ int_arg (widen (u32 (p.memory_used / 1024)))
    ∷ str_arg (some p.name)
    ∷ []

unfoldable pub process_line : (widen : ℕ → ℕ) → Process → System → Option System
unfolding kprintf
process_line widen p s =
    kprintf (bytes "  #%d (ppid %d) [%s] %d KB : %s\n") (process_args widen p) s

unfoldable pub process_lines : (widen : ℕ → ℕ) → List Process → System → Option System
unfolding process_line
process_lines widen [] s = some s
process_lines widen (p ∷ ps) s = and_then (process_line widen p s) (process_lines widen ps)

abbrev pub process_head : List (List ℕ)
process_head =
    bytes "  PID   PPID  STATE     MEMORY    NAME\n"
    ∷ bytes "  -------------------------------------------\n"
    ∷ []

unfoldable pub process_list : (widen : ℕ → ℕ) → List Process → System → Option System
unfolding print_lines process_lines
process_list widen ps s = and_then (print_lines process_head s) (process_lines widen ps)

abbrev pub service_args : (widen : ℕ → ℕ) → Service → List Arg
service_args widen v =
    str_arg (some v.name)
    ∷ int_arg (widen v.pid)
    ∷ str_arg (some (if v.is_active then bytes "ACTIVE  " else bytes "INACTIVE"))
    ∷ str_arg (some v.description)
    ∷ []

unfoldable pub service_line : (widen : ℕ → ℕ) → Service → System → Option System
unfolding kprintf
service_line widen v s = kprintf (bytes "  %s (%d) [%s] - %s\n") (service_args widen v) s

unfoldable pub service_lines : (widen : ℕ → ℕ) → List Service → System → Option System
unfolding service_line
service_lines widen [] s = some s
service_lines widen (v ∷ vs) s = and_then (service_line widen v s) (service_lines widen vs)

abbrev pub service_head : List (List ℕ)
service_head =
    bytes "  SERVICE       PID    STATUS    DESCRIPTION\n"
    ∷ bytes "  --------------------------------------------------------\n"
    ∷ []

unfoldable pub init_list_services : (widen : ℕ → ℕ) → List Service → System → Option System
unfolding print_lines service_lines
init_list_services widen vs s = and_then (print_lines service_head s) (service_lines widen vs)
