-- ===== src/Shell/Execute/Ends.antt =====
-- The runs of the commands of the shell, and the descriptors after them.
use chef_os.Prelude.{
  ℕ, zero, suc, ◌≡◌, refl, ap, inl, inr, List, [], ◌∷◌, length, Option, some, bytes,
}
use chef_os.Text.Signed.{ℤ, pos, negsuc}
use chef_os.Text.Kprintf.{str_arg}
use chef_os.Text.Kprintf.Total.{fits}
use chef_os.Fs.Vfs.{Vfs, vfs_open, vfs_read, vfs_close}
use chef_os.Fs.Vfs.Session.{vfs_open-session}
use chef_os.Fs.Vfs.Kept.{SameNodes-refl}
use chef_os.Video.Fb.DesktopShell.{fb_draw_desktop_shell}
use chef_os.Sys.{System}
use chef_os.Sys.Print.{Prints-same, PrintedOnly-refl, Prints, kprintf-Prints, print_lines-Prints}
use chef_os.Shell.{
  Command, nothing, help, uname, clear, ls, ps, services, mem, date, reboot, poweroff, cat, echo,
  unknown, choose_command,
}
use chef_os.Shell.Execute.{
  help_text, uname_text, ls_text, set_vfs, until_nul, show_read, cat_fd, do_cat, reset_pulse,
  acpi_off, run_command, execute_cmd,
}
use chef_os.Shell.Execute.Quiet.{
  Quiet, Quiet-IsReady, Quiet-printed, Quiet-trans, Ends, Prints-Ends, set_vfs-Quiet,
  then_ports-Ends, desktop_shell-Bounded,
}
use chef_os.Shell.Execute.Printing.{
  help-AllPlain, uname-AllPlain, ls-AllPlain, Widens, process_list-Prints,
  init_list_services-Prints, do_mem-Prints, do_date-Prints,
}

show_read-Prints : (n : ℤ) (buf : List ℕ) (s : System) → Prints s (show_read n buf s)
unfolding fits bytes
show_read-Prints (pos zero) buf s = Prints-same s
show_read-Prints (pos (suc n)) buf s =
    kprintf-Prints (bytes "%s\n") (str_arg (some (until_nul buf)) ∷ []) s refl tt
show_read-Prints (negsuc n) buf s = Prints-same s

-- After a step that leaves the files alone, printing.
after-Ends : (s t : System) (r : Option System) → Quiet s t → Prints t r → Ends s r
after-Ends s t r q pr ready =
    let (u, e, p) = pr (Quiet-IsReady s t q ready) in
    (u, e, Quiet-trans s t u q (Quiet-printed t u p))

cat_failed :
    (path : List ℕ) (s t : System) (fd : ℤ) → fd ≡ negsuc 0 → Quiet s t → Ends s (cat_fd path fd t)
unfolding fits bytes
cat_failed path s t fd e q = rw e (
    after-Ends s t _ q (
      kprintf-Prints (bytes "cat: %s: No such file or directory\n") (str_arg (some path) ∷ []) t
        refl tt))

do_cat-Ends : (path : List ℕ) (s : System) → length s.vfs.table ≡ 64 → Ends s (do_cat path s)
unfolding do_cat
do_cat-Ends path s full = elim (vfs_open-session s.vfs path 0 511 full) [
  | inl (i, e, kept) ↦
      let v = (vfs_open s.vfs path 0).1 in
      let r = vfs_read (pos i) 511 v in
      let closed_vfs = vfs_close (pos i) r.2 in
      rw e (
        after-Ends s (set_vfs closed_vfs s) _ (set_vfs-Quiet s closed_vfs kept)
          (show_read-Prints r.0 r.1 (set_vfs closed_vfs s)))
  | inr refused ↦
      cat_failed path s (set_vfs (vfs_open s.vfs path 0).1 s) (vfs_open s.vfs path 0).0
        (ap (λ (r : ℤ × Vfs). r.0) refused)
        (set_vfs-Quiet s (vfs_open s.vfs path 0).1
          (rw (ap (λ (r : ℤ × Vfs). r.1) refused) (SameNodes-refl s.vfs)))
]

cleared-Quiet : (s : System) → Quiet s (record s { fb = fb_draw_desktop_shell s.fb })
cleared-Quiet s =
    let q = Quiet-printed s s (PrintedOnly-refl s) in
    record {
      store = q.store;
      root = q.root;
      size = q.size;
      nodes = q.nodes;
      serial = q.serial;
      fb = desktop_shell-Bounded s.fb;
      memory = q.memory;
      processes = q.processes;
      services = q.services;
      pmm = q.pmm;
      ports = q.ports;
      line_fuel = refl;
      line_status = refl;
    }

module _ (widen cmos : ℕ → ℕ) (w : Widens widen) where
  run_command-Ends :
      (c : Command) (s : System) → length s.vfs.table ≡ 64 → Ends s (run_command widen cmos c s)
  unfolding run_command fits bytes
  run_command-Ends nothing s full = Prints-Ends s _ (Prints-same s)
  run_command-Ends help s full = Prints-Ends s _ (print_lines-Prints help_text help-AllPlain s)
  run_command-Ends uname s full = Prints-Ends s _ (print_lines-Prints uname_text uname-AllPlain s)
  run_command-Ends clear s full = λ ready. (_, refl, cleared-Quiet s)
  run_command-Ends ls s full = Prints-Ends s _ (print_lines-Prints ls_text ls-AllPlain s)
  run_command-Ends (cat path) s full = do_cat-Ends path s full
  run_command-Ends ps s full = Prints-Ends s _ (process_list-Prints widen w s.processes.list s)
  run_command-Ends services s full =
      Prints-Ends s _ (init_list_services-Prints widen w s.services s)
  run_command-Ends mem s full = Prints-Ends s _ (do_mem-Prints widen w s)
  run_command-Ends date s full = Prints-Ends s _ (do_date-Prints widen w cmos s)
  run_command-Ends (echo text) s full =
      Prints-Ends s _ (kprintf-Prints (bytes "%s\n") (str_arg (some text) ∷ []) s refl tt)
  run_command-Ends reboot s full =
      then_ports-Ends s reset_pulse _
        (print_lines-Prints (bytes "Rebooting system...\n" ∷ []) (refl, tt) s)
  run_command-Ends poweroff s full =
      then_ports-Ends s acpi_off _
        (print_lines-Prints (bytes "Powering off...\n" ∷ []) (refl, tt) s)
  run_command-Ends (unknown line) s full = Prints-Ends s _ (
      kprintf-Prints (bytes "chef-sh: command not found: %s (type 'help' for commands)\n")
        (str_arg (some line) ∷ []) s refl tt)

pub execute_cmd-Ends :
    (widen cmos : ℕ → ℕ) (line : List ℕ) (s : System)
    → Widens widen
    → length s.vfs.table ≡ 64
    → Ends s (execute_cmd widen cmos line s)
unfolding execute_cmd
execute_cmd-Ends widen cmos line s w full =
    run_command-Ends widen cmos w (choose_command line) s full
