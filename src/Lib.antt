-- ===== src/Lib.antt =====
-- Verification library of the Chef OS kernel, a kernel for x86-64 in C (kernel/). It models the memory
-- managers with the page tables, the file systems, the C string library and printing, the drivers, the
-- scheduler and the processes, the descriptor tables, the system calls, the frame buffer, the
-- compositor, the shell, and the windows and the event loop of the boot code.
--
-- How the program's parts interact: the boot code gives the memory map to the page allocator, the
-- heap and the page tables take their pages from it, and the other parts take their memory from the
-- heap. Drivers set the state that the event loop, the shell, the system calls and the compositor read.
-- Printing goes to the serial port and the console of the frame buffer. The event loop passes each key
-- to the compositor or to the shell, whose commands print and read files; the compositor places the
-- windows by the layout engine, draws them behind the screen and shows the frame.
--
-- Which file models which part:
--   Mm/Bitmap, Mm/Pmm and below    kernel/src/mm/pmm.c: bitmap_set, bitmap_clear, bitmap_test, pmm_init,
--                                  pmm_alloc_page(s), pmm_free_page(s). The bitmap is a function from
--                                  the index of a byte; the loops count their rounds down.
--   Mm/Heap and below              kernel/src/mm/heap.c: heap_init, kmalloc, kfree, and kzalloc in
--                                  Mm/Heap/Zeroed. The linked blocks are a list of their headers in
--                                  address order.
--   Mm/Vmm and below               kernel/src/mm/vmm.c: vmm_map_page over a memory of 64-bit words, and
--                                  the walk that the processor makes (Mm/Vmm/Walk).
--   Fs/File, Fs/Tree, Fs/Vfs       kernel/src/fs/ramfs.c, vfs.c and devfs.c: file contents, the tree of
--                                  names with vfs_lookup, and the descriptor table. A node's address is
--                                  an index into a store.
--   Text/Memory, Text/Strings      kernel/src/lib/string.c: memset, memcpy, memmove, memcmp, strlen,
--                                  strcmp, strncmp, strcpy, strncpy, strcat.
--   Text/Kprintf                   kernel/src/sys/kprintf.c: print_num and kvprintf, with serial_puts of
--                                  kernel/src/sys/serial.c.
--   Sys and below                  The record of the state that the commands and the system calls share,
--                                  kprintf on it, and kernel/src/sys/syscall.c: syscall_dispatch
--                                  (Sys/Syscall) and syscall_init (Sys/Registers).
--   Drivers/Rtc, Keyboard, Mouse,  kernel/src/drivers: rtc.c, ps2_kbd.c, ps2_mouse.c, timer.c, pci.c and
--   Timer, Pci, Ata                ata.c. What a port answers is an argument. The set-up of the mouse
--                                  is in Drivers/Mouse/Setup.
--   Drivers/Serial, Polling        kernel/src/sys/serial.c at the port's registers, and the loops that
--                                  poll a status register, which ata.c and serial.c share.
--   Proc/Process, Proc/Sched       kernel/src/proc: process.c, init.c and sched.c. Threads are a store
--                                  with `next` pointers.
--   Arch/Gdt, Arch/Idt             kernel/src/arch/x86_64: gdt.c, idt.c and pic.c.
--   Video/Font, Video/Fb           kernel/src/video: font.c and fb.c, with fb_draw_desktop_shell in
--                                  Video/Fb/DesktopShell and the cursor in Video/Fb/Cursor. A buffer is a function from the index of a
--                                  pixel, one for the screen and one behind it.
--   Compositor/Surface             kernel/src/compositor/surface.c.
--   Compositor/Window, Layout,     kernel/src/compositor: window.c, layout.c and the state of
--   Desktop                        compositor.c.
--   Compositor/ShellUi, Render     kernel/src/compositor/shell_ui.c, and the rendering of compositor.c.
--   Shell, Shell/Execute,          kernel/src/user/shell.c: the line editor and the choice of a command,
--   Shell/Listing                  what each command does and prints, and the lists that process.c and
--                                  init.c of kernel/src/proc print.
--   Boot, Boot/Files, Boot/Loop    kernel/src/boot/entry.c: panic, the painted windows, the files that
--                                  kmain makes, and its event loop.
--   Prelude                        lists, tests and machine words that the parts share.
-- The Tests modules hold the theorems applied to concrete states, and runs of the code.
--
-- Numbers are naturals, and a w-bit integer keeps its wrap-around as a remainder modulo 2^w. A signed
-- integer is its bit pattern where the code mixes the two, and a ℤ where it is a result or a file
-- descriptor. Loops over a range are recursion on the rounds that are left. Fuel stands in these places:
-- vfs_lookup has as much as its path is long, and each round takes a byte; print_num has 65 rounds, one
-- for each byte of its buffer, and a 64-bit number needs 64 at most; timer_sleep_ms needs one more than
-- the ticks that it waits for; strcpy and strcat take theirs as an argument, for the length of the
-- strings; the path of the system call SYS_OPEN is read from memory with a bound on its length, which
-- a path that ends before it does not meet; each wait of the disk driver and of the serial port has a
-- bound on the reads of the status register, which a device that answers within it does not meet. The
-- waits of the mouse count down the timeout of the code.
--
-- What the code takes from outside is a parameter: `cmos` is what the clock's registers answer, the
-- `status` and `data_port` of a device what its ports answer, `widen` the 64-bit word in which an
-- int is passed to kprintf, whose upper half C leaves open.
--
-- Not modelled: user_mode_enter_test of sys/syscall.c, which ends in assembly; the order in which
-- kmain calls the set-up functions and what it prints between them; vmm_get_active_pml4, which reads
-- a control register; the assembly stubs and port instructions, which are outside C; the Limine
-- header (limine.h) but for the memory map entry. The records of the system stand for data that lie
-- in memory too: a store through the address of a system call into them is not modelled, nor a draw
-- behind the array of the back buffer, so the theorems take such an address and such a screen out.
-- Where memory is taken from the heap, the file systems, processes, threads, surfaces and windows
-- are modelled for the case that there is enough of it.
pub mod Prelude
pub mod Mm
pub mod Compositor
pub mod Drivers
pub mod Text
pub mod Fs
pub mod Video
pub mod Proc
pub mod Arch
pub mod Shell
pub mod Sys
pub mod Boot
