-- ===== src/Shell/Execute/Printing.antt =====
-- The commands of the shell that only print.
use chef_os.Prelude.{ℕ, ◌<◌, ◌^◌, ◌/◌, refl, List, [], ◌∷◌, u32, sub64, bytes}
use chef_os.Text.Kprintf.Total.{fits}
use chef_os.Drivers.Rtc.{rtc_get_time}
use chef_os.Mm.Pmm.{get_free_memory, get_total_memory}
use chef_os.Proc.Process.{Process, Service}
use chef_os.Sys.{System}
use chef_os.Sys.Print.{
  Prints-same, Prints, kprintf-Prints, and_then-Prints, AllPlain, print_lines-Prints,
}
use chef_os.Shell.Listing.{
  process_args, service_args, process_line, process_lines, process_head, process_list, service_line,
  service_lines, service_head, init_list_services,
}
use chef_os.Shell.Execute.{
  help_text, uname_text, ls_text, megabytes, int_of, date_args, do_mem, do_date,
}

-- The texts of the shell have no percent sign.
pub help-AllPlain : AllPlain help_text
unfolding fits bytes
help-AllPlain = (
  refl,
  (
    refl,
    (refl, (refl, (refl, (refl, (refl, (refl, (refl, (refl, (refl, (refl, (refl, tt))))))))))),
  ),
)

pub uname-AllPlain : AllPlain uname_text
unfolding fits bytes
uname-AllPlain = (refl, tt)

pub ls-AllPlain : AllPlain ls_text
unfolding fits bytes
ls-AllPlain = (refl, (refl, (refl, (refl, (refl, tt)))))

process_head-AllPlain : AllPlain process_head
unfolding fits bytes
process_head-AllPlain = (refl, (refl, tt))

service_head-AllPlain : AllPlain service_head
unfolding fits bytes
service_head-AllPlain = (refl, (refl, tt))

-- A word in which an `int` is passed has 64 bits.
abbrev pub Widens : (ℕ → ℕ) → Type 0
Widens widen = (n : ℕ) → widen n < 2 ^ 64

module _ (widen : ℕ → ℕ) (w : Widens widen) where
  process_line-Prints : (p : Process) (s : System) → Prints s (process_line widen p s)
  unfolding process_line fits bytes
  process_line-Prints p s =
      kprintf-Prints (bytes "  #%d (ppid %d) [%s] %d KB : %s\n") (process_args widen p) s refl
        (w p.pid, (w p.ppid, (w (u32 (p.memory_used / 1024)), tt)))

  process_lines-Prints : (ps : List Process) (s : System) → Prints s (process_lines widen ps s)
  unfolding process_lines
  process_lines-Prints [] s = Prints-same s
  process_lines-Prints (p ∷ ps) s =
      and_then-Prints s _ (process_lines widen ps) (process_line-Prints p s)
        (process_lines-Prints ps)

  pub process_list-Prints : (ps : List Process) (s : System) → Prints s (process_list widen ps s)
  unfolding process_list
  process_list-Prints ps s =
      and_then-Prints s _ (process_lines widen ps)
        (print_lines-Prints process_head process_head-AllPlain s) (process_lines-Prints ps)

  service_line-Prints : (v : Service) (s : System) → Prints s (service_line widen v s)
  unfolding service_line fits bytes
  service_line-Prints v s =
      kprintf-Prints (bytes "  %s (%d) [%s] - %s\n") (service_args widen v) s refl (w v.pid, tt)

  service_lines-Prints : (vs : List Service) (s : System) → Prints s (service_lines widen vs s)
  unfolding service_lines
  service_lines-Prints [] s = Prints-same s
  service_lines-Prints (v ∷ vs) s =
      and_then-Prints s _ (service_lines widen vs) (service_line-Prints v s)
        (service_lines-Prints vs)

  pub init_list_services-Prints :
      (vs : List Service) (s : System) → Prints s (init_list_services widen vs s)
  unfolding init_list_services
  init_list_services-Prints vs s =
      and_then-Prints s _ (service_lines widen vs)
        (print_lines-Prints service_head service_head-AllPlain s) (service_lines-Prints vs)

  pub do_mem-Prints : (s : System) → Prints s (do_mem widen s)
  unfolding do_mem fits bytes
  do_mem-Prints s =
      let total = megabytes (get_total_memory s.pmm) in
      let free = megabytes (get_free_memory s.pmm) in
      and_then-Prints s _ _ (print_lines-Prints (bytes "Memory Utilization:\n" ∷ []) (refl, tt) s)
        (λ s1.
          and_then-Prints s1 _ _
            (kprintf-Prints (bytes "  Total: %d MB\n") (int_of widen total ∷ []) s1 refl
              (w (u32 total), tt))
            (λ s2.
              and_then-Prints s2 _ _
                (kprintf-Prints (bytes "  Used:  %d MB\n") (int_of widen (sub64 total free) ∷ []) s2
                  refl (w (u32 (sub64 total free)), tt))
                (λ s3.
                  kprintf-Prints (bytes "  Free:  %d MB\n") (int_of widen free ∷ []) s3 refl
                    (w (u32 free), tt))))

  pub do_date-Prints : (cmos : ℕ → ℕ) (s : System) → Prints s (do_date widen cmos s)
  unfolding do_date fits bytes
  do_date-Prints cmos s =
      let now = rtc_get_time cmos in
      kprintf-Prints (bytes "%d-%d-%d %d:%d:%d UTC\n") (date_args widen now) s refl (
        w (u32 now.year),
        (
          w (u32 now.month),
          (w (u32 now.day), (w (u32 now.hour), (w (u32 now.minute), (w (u32 now.second), tt)))),
        ),
      )
