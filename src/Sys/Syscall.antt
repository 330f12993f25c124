-- ===== src/Sys/Syscall.antt =====
-- `syscall_dispatch` of kernel/src/sys/syscall.c. The arguments are 64-bit words, and the last one is
-- never read. `widen` gives the 64-bit word in which an `int` is passed to `kprintf`, whose upper half
-- C leaves open.
use chef_os.Prelude.{
  ℕ, zero, suc, ◌+◌, ◌-◌, ◌^◌, ◌==◌, ltb, ◌&&◌, ◌||◌, if◌then◌else◌, List, [], ◌∷◌, Option, none,
  some, u32, u64, bytes,
}
use chef_os.Text.Signed.{ℤ, pos, negsuc}
use chef_os.Text.Kprintf.{int_arg}
use chef_os.Fs.Vfs.{Vfs, vfs_open, vfs_close}
use chef_os.Drivers.Keyboard.{get_last_char}
use chef_os.Video.Fb.{fb_swap, fb_draw_rect}
use chef_os.Sys.{System, print_text, kprintf}

abbrev pub sys_read : ℕ
sys_read = 3

abbrev pub sys_write : ℕ
sys_write = 4

abbrev pub sys_open : ℕ
sys_open = 5

abbrev pub sys_close : ℕ
sys_close = 6

abbrev pub sys_getpid : ℕ
sys_getpid = 7

abbrev pub sys_yield : ℕ
sys_yield = 8

abbrev pub sys_draw_rect : ℕ
sys_draw_rect = 11

abbrev pub sys_swap_buffers : ℕ
sys_swap_buffers = 12

-- `(int)a` and `(int64_t)a`
abbrev pub to_int : ℕ → ℤ
to_int a = if ltb (u32 a) (2 ^ 31) then pos (u32 a) else negsuc (2 ^ 32 - 1 - u32 a)

abbrev pub to_int64 : ℕ → ℤ
to_int64 a = if ltb (u64 a) (2 ^ 63) then pos (u64 a) else negsuc (2 ^ 64 - 1 - u64 a)

-- The `n` bytes at an address.
unfoldable pub bytes_at : (memory : ℕ → ℕ) → (a n : ℕ) → List ℕ
bytes_at memory a zero = []
bytes_at memory a (suc n) = memory a ∷ bytes_at memory (u64 (a + 1)) n

-- The bytes before the NUL, on fuel.
unfoldable pub string_at : ℕ → (memory : ℕ → ℕ) → (a : ℕ) → Option (List ℕ)
string_at zero memory a = none
string_at (suc fuel) memory a =
    let rest = string_at fuel memory (u64 (a + 1)) in
    if memory a == 0 then some [] else elim rest [ none ↦ none | some s ↦ some (memory a ∷ s) ]

-- The result, and the state after.
abbrev pub Outcome : Type 0
Outcome = Option (ℤ × System)

abbrev pub wrote : ℤ → Option System → Outcome
wrote n none = none
wrote n (some s) = some (n, s)

-- `serial_putc` and `fb_putc` of each byte, and `fb_swap`.
unfoldable pub do_write : (a1 a2 a3 : ℕ) → System → Outcome
unfolding bytes_at print_text
do_write a1 a2 a3 s =
    let text = bytes_at s.memory a2 (u64 a3) in
    if u32 a1 == 1 || u32 a1 == 2
    then wrote (to_int64 a3) (print_text text text s)
    else some (negsuc 0, s)

-- `buf[0] = c`
abbrev pub store_char : (a c : ℕ) → (ℕ → ℕ) → ℕ → ℕ
store_char a c memory k = if k == a then c else memory k

abbrev pub took_char : System → System
took_char s = record s { vfs = record (s.vfs) { last_char = (get_last_char s.vfs.last_char).1 } }

abbrev pub deliver : (a c : ℕ) → System → ℤ × System
deliver a c s =
    if c == 0
    then (pos 0, took_char s)
    else (pos 1, record (took_char s) { memory = store_char a c s.memory })

unfoldable pub do_read : (a1 a2 a3 : ℕ) → System → ℤ × System
unfolding get_last_char
do_read a1 a2 a3 s =
    if u32 a1 == 0 && ltb 0 a3
    then deliver a2 (get_last_char s.vfs.last_char).0 s
    else (negsuc 0, s)

abbrev pub opened : ℤ × Vfs → System → ℤ × System
opened r s = (r.0, record s { vfs = r.1 })

-- A descriptor's flags are the bits of an `int`.
abbrev pub open_path : (flags : ℕ) → Option (List ℕ) → System → Outcome
open_path flags none s = none
open_path flags (some path) s = some (opened (vfs_open s.vfs path flags) s)

unfoldable pub do_open : (fuel a1 a2 : ℕ) → System → Outcome
unfolding string_at vfs_open
do_open fuel a1 a2 s = open_path (u32 a2) (string_at fuel s.memory a1) s

unfoldable pub do_close : (a1 : ℕ) → System → ℤ × System
unfolding vfs_close
do_close a1 s = (pos 0, record s { vfs = vfs_close (to_int a1) s.vfs })

unfoldable pub do_draw_rect : (a1 a2 a3 a4 a5 : ℕ) → System → ℤ × System
unfolding fb_draw_rect
do_draw_rect a1 a2 a3 a4 a5 s =
    (pos 0, record s { fb = fb_draw_rect (u32 a1) (u32 a2) (u32 a3) (u32 a4) (u32 a5) s.fb })

abbrev pub failed : Option System → Outcome
failed r = wrote (negsuc 0) r

unfoldable pub do_unknown : (widen : ℕ → ℕ) (num : ℕ) → System → Outcome
unfolding kprintf
do_unknown widen num s =
    failed (kprintf (bytes "[SYSCALL] Unknown syscall #%d\n") (int_arg (widen (u32 num)) ∷ []) s)

-- `none` when the fuel does not reach the end of a path, or a byte is never sent.
unfoldable pub syscall_dispatch :
    (fuel : ℕ) (widen : ℕ → ℕ) (num a1 a2 a3 a4 a5 : ℕ) → System → Outcome
unfolding do_write do_read do_open do_close do_draw_rect do_unknown fb_swap
syscall_dispatch fuel widen num a1 a2 a3 a4 a5 s =
    if num == sys_write
    then do_write a1 a2 a3 s
    else if num == sys_read
    then some (do_read a1 a2 a3 s)
    else if num == sys_open
    then do_open fuel a1 a2 s
    else if num == sys_close
    then some (do_close a1 s)
    else if num == sys_getpid
    then some (pos 1, s)
    else if num == sys_yield
    then some (pos 0, s)
    else if num == sys_draw_rect
    then some (do_draw_rect a1 a2 a3 a4 a5 s)
    else if num == sys_swap_buffers
    then some (pos 0, record s { fb = fb_swap s.fb })
    else do_unknown widen num s
