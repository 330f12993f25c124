-- ===== src/Shell/Execute.antt =====
-- What `chef_shell_execute_cmd` of kernel/src/user/shell.c does for each command, and the output of
-- `chef_shell_handle_char`. `widen` gives the 64-bit word in which an `int` is passed to `kprintf`, and
-- `cmos` the clock's registers.
pub mod Quiet
pub mod Printing
pub mod Ends
use chef_os.Prelude.{
  ℕ, zero, suc, ◌*◌, ◌/◌, ◌==◌, ltb, if◌then◌else◌, ◌&&◌, List, [], ◌∷◌, ◌++◌, length, Option, none,
  some, u32, sub64, bytes,
}
use chef_os.Text.Signed.{ℤ, pos, negsuc}
use chef_os.Text.Kprintf.{Arg, int_arg, str_arg}
use chef_os.Fs.Vfs.{Vfs, vfs_open, vfs_read, vfs_close}
use chef_os.Drivers.Rtc.{RtcTime, rtc_get_time}
use chef_os.Drivers.Timer.{PortWrite}
use chef_os.Mm.Pmm.{get_free_memory, get_total_memory}
use chef_os.Video.Fb.DesktopShell.{fb_draw_desktop_shell}
use chef_os.Shell.{
  Command, nothing, help, uname, clear, ls, ps, services, mem, date, reboot, poweroff, cat, echo,
  unknown, choose_command, Shell, is_printable, handle_char,
}
use chef_os.Shell.Listing.{process_list, init_list_services}
use chef_os.Sys.{System, kprintf, and_then, print_lines}

abbrev pub help_text : List (List ℕ)
help_text =
    bytes "Available Built-in Commands:\n"
    ∷ bytes "  help     - Display this command manual\n"
    ∷ bytes "  uname    - Show OS version and system architecture\n"
    ∷ bytes "  clear    - Clear the kernel console screen\n"
    ∷ bytes "  ls       - List directory contents\n"
    ∷ bytes "  cat      - Display contents of a text file\n"
    ∷ bytes "  ps       - List running processes and memory footprint\n"
    ∷ bytes "  services - List active system services managed by init\n"
    ∷ bytes "  mem      - Display physical memory utilization\n"
    ∷ bytes "  date     - Show current CMOS real-time clock timestamp\n"
    ∷ bytes "  echo     - Print text arguments to console\n"
    ∷ bytes "  reboot   - Reboot the machine\n"
    ∷ bytes "  poweroff - Shut down system\n"
    ∷ []

abbrev pub uname_text : List (List ℕ)
uname_text = bytes "Chef OS 1.0.0-alpha x86_64 Higher-Half (Codename: Warm Parchment)\n" ∷ []

abbrev pub ls_text : List (List ℕ)
ls_text =
    bytes "  Directory of /\n"
    ∷ bytes "  drwxr-xr-x   bin\n"
    ∷ bytes "  drwxr-xr-x   dev\n"
    ∷ bytes "  drwxr-xr-x   etc\n"
    ∷ bytes "  drwxr-xr-x   home\n"
    ∷ []

abbrev pub set_vfs : Vfs → System → System
set_vfs v s = record s { vfs = v }

-- The buffer of 512 zero bytes as a string, after the bytes of a read.
unfoldable pub until_nul : List ℕ → List ℕ
until_nul [] = []
until_nul (c ∷ cs) = let rest = until_nul cs in if c == 0 then [] else c ∷ rest

-- `if (n > 0) kprintf("%s\n", buf);`
abbrev pub show_read : (n : ℤ) → List ℕ → System → Option System
show_read (pos zero) buf s = some s
show_read (pos (suc n)) buf s = kprintf (bytes "%s\n") (str_arg (some (until_nul buf)) ∷ []) s
show_read (negsuc n) buf s = some s

abbrev pub cat_read : (fd : ℤ) → ℤ × List ℕ × Vfs → System → Option System
cat_read fd r s = show_read r.0 r.1 (set_vfs (vfs_close fd r.2) s)

-- `fd >= 0`
abbrev pub cat_fd : (path : List ℕ) → (fd : ℤ) → System → Option System
cat_fd path (negsuc n) s =
    kprintf (bytes "cat: %s: No such file or directory\n") (str_arg (some path) ∷ []) s
cat_fd path (pos i) s = cat_read (pos i) (vfs_read (pos i) 511 s.vfs) s

unfoldable pub do_cat : (path : List ℕ) → System → Option System
unfolding vfs_open vfs_read vfs_close until_nul kprintf
do_cat path s = let opened = vfs_open s.vfs path 0 in cat_fd path opened.0 (set_vfs opened.1 s)

abbrev pub megabytes : ℕ → ℕ
megabytes n = n / (1024 * 1024)

-- An integer that is cut to an `int` for `%d`.
abbrev pub int_of : (widen : ℕ → ℕ) → ℕ → Arg
int_of widen n = int_arg (widen (u32 n))

unfoldable pub do_mem : (widen : ℕ → ℕ) → System → Option System
unfolding kprintf print_lines get_total_memory get_free_memory
do_mem widen s =
    let total = megabytes (get_total_memory s.pmm) in
    let free = megabytes (get_free_memory s.pmm) in
    and_then (print_lines (bytes "Memory Utilization:\n" ∷ []) s) (λ s1.
      and_then (kprintf (bytes "  Total: %d MB\n") (int_of widen total ∷ []) s1) (λ s2.
        and_then (kprintf (bytes "  Used:  %d MB\n") (int_of widen (sub64 total free) ∷ []) s2)
          (λ s3. kprintf (bytes "  Free:  %d MB\n") (int_of widen free ∷ []) s3)))

abbrev pub date_args : (widen : ℕ → ℕ) → RtcTime → List Arg
date_args widen now =
    int_of widen now.year
    ∷ int_of widen now.month
    ∷ int_of widen now.day
    ∷ int_of widen now.hour
    ∷ int_of widen now.minute
    ∷ int_of widen now.second
    ∷ []

unfoldable pub do_date : (widen cmos : ℕ → ℕ) → System → Option System
unfolding kprintf rtc_get_time
do_date widen cmos s =
    kprintf (bytes "%d-%d-%d %d:%d:%d UTC\n") (date_args widen (rtc_get_time cmos)) s

-- `outb` and `outw` after a text.
abbrev pub then_ports : List PortWrite → Option System → Option System
then_ports ws none = none
then_ports ws (some s) = some (record s { ports = s.ports ++ ws })

abbrev pub reset_pulse : List PortWrite
reset_pulse = record { port = 0x64; value = 0xFE } ∷ []

abbrev pub acpi_off : List PortWrite
acpi_off = record { port = 0x604; value = 0x2000 } ∷ record { port = 0xB004; value = 0x2000 } ∷ []

unfoldable pub run_command : (widen cmos : ℕ → ℕ) → Command → System → Option System
unfolding kprintf print_lines do_cat do_mem do_date fb_draw_desktop_shell process_list
    init_list_services
run_command widen cmos nothing s = some s
run_command widen cmos help s = print_lines help_text s
run_command widen cmos uname s = print_lines uname_text s
run_command widen cmos clear s = some (record s { fb = fb_draw_desktop_shell s.fb })
run_command widen cmos ls s = print_lines ls_text s
run_command widen cmos (cat path) s = do_cat path s
run_command widen cmos ps s = process_list widen s.processes.list s
run_command widen cmos services s = init_list_services widen s.services s
run_command widen cmos mem s = do_mem widen s
run_command widen cmos date s = do_date widen cmos s
run_command widen cmos (echo text) s = kprintf (bytes "%s\n") (str_arg (some text) ∷ []) s
run_command widen cmos reboot s =
    then_ports reset_pulse (print_lines (bytes "Rebooting system...\n" ∷ []) s)
run_command widen cmos poweroff s =
    then_ports acpi_off (print_lines (bytes "Powering off...\n" ∷ []) s)
run_command widen cmos (unknown line) s =
    kprintf (bytes "chef-sh: command not found: %s (type 'help' for commands)\n")
      (str_arg (some line) ∷ []) s

unfoldable pub execute_cmd : (widen cmos : ℕ → ℕ) → List ℕ → System → Option System
unfolding run_command choose_command
execute_cmd widen cmos line s = run_command widen cmos (choose_command line) s

abbrev pub prompt : List ℕ
prompt = bytes "chef-os> "

-- What `chef_shell_handle_char` does but for its buffer.
unfoldable pub echo_char : (widen cmos : ℕ → ℕ) → (c : ℕ) → Shell → System → Option System
unfolding execute_cmd kprintf print_lines
echo_char widen cmos c sh s =
    if c == 10
    then and_then (print_lines (bytes "\n" ∷ []) s)
        (λ s1. and_then (execute_cmd widen cmos sh.input s1) (print_lines (prompt ∷ [])))
    else if c == 8
    then (if ltb 0 (length sh.input) then print_lines ((8 ∷ 32 ∷ 8 ∷ []) ∷ []) s else some s)
    else if ltb (length sh.input) 254 && is_printable c
    then kprintf (bytes "%c") (int_arg (widen c) ∷ []) s
    else some s

abbrev pub with_shell : Shell → Option System → Option (Shell × System)
with_shell sh none = none
with_shell sh (some s) = some (sh, s)

unfoldable pub shell_handle_char :
    (widen cmos : ℕ → ℕ) → (c : ℕ) → Shell → System → Option (Shell × System)
unfolding echo_char handle_char
shell_handle_char widen cmos c sh s = with_shell (handle_char c sh) (echo_char widen cmos c sh s)

-- `chef_shell_init`
unfoldable pub shell_init : System → Option (Shell × System)
unfolding print_lines
shell_init s = with_shell (record { input = []; executed = [] }) (print_lines (prompt ∷ []) s)
