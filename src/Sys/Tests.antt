-- ===== src/Sys/Tests.antt =====
-- The system call theorems at a concrete system.
use chef_os.Arch.Gdt.{GdtEntry, gdt_init, gdt_set_gate, gate}
use chef_os.Prelude.{ℕ, Bool, leb, ◌+◌, ◌/◌, ◌%◌, ◌^◌, ◌≡◌, refl, some, u32}
use chef_os.Text.Signed.{pos}
use chef_os.Text.Strings.{strcmp}
use chef_os.Fs.Tree.{vfs_lookup, lookup_loop, ramfs_finddir, find_child, split_component}
use chef_os.Fs.Vfs.{vfs_open, free_slot}
use chef_os.Sys.{System}
use chef_os.Sys.Sample.{sample, sample_store, path}
use chef_os.Sys.Registers.{star}
use chef_os.Sys.Syscall.{string_at}
use chef_os.Sys.Isolated.{Isolated}
use chef_os.Sys.Calls.{OpenClose, syscall_dispatch-OpenClose}

abbrev no_high_half : ℕ → ℕ
no_high_half n = u32 n

path_at : string_at 8 sample.memory 0x1000 ≡ some path
unfolding string_at
path_at = refl

-- The kernel's data lie in the upper half of the addresses.
abbrev above_half : ℕ → Bool
above_half k = leb (2 ^ 63) k

found : vfs_lookup sample_store (some 0) path ≡ some (some 1)
unfolding vfs_lookup lookup_loop ramfs_finddir find_child split_component strcmp
found = refl

opened : (vfs_open sample.vfs path (u32 0)).0 ≡ pos 0
unfolding vfs_open vfs_lookup lookup_loop ramfs_finddir find_child split_component strcmp free_slot
opened = refl

syscall_dispatch-OpenClose_example :
    (t : System) × (u : System) × OpenClose sample t u 8 no_high_half 0x1000 0 0
syscall_dispatch-OpenClose_example =
    syscall_dispatch-OpenClose 8 no_high_half 0x1000 0 1 0 path sample path_at found refl opened

abbrev blank_entry : GdtEntry
blank_entry = record {
  limit_low = 0;
  base_low = 0;
  base_middle = 0;
  access = 0;
  granularity = 0;
  base_high = 0;
}

abbrev gates : ℕ → GdtEntry
gates = gdt_init 0 (λ i. blank_entry)

-- The selectors that `sysret` and `syscall` take from the register STAR name the gates that `gdt_init`
-- makes for the user's code and data and for the kernel's code.
user_code_access : (gates ((star / 2 ^ 48 + 16) / 8)).access ≡ 0xFA
unfolding gdt_init gdt_set_gate gate
user_code_access = refl

user_data_access : (gates ((star / 2 ^ 48 + 8) / 8)).access ≡ 0xF2
unfolding gdt_init gdt_set_gate gate
user_data_access = refl

kernel_code_access : (gates (star / 2 ^ 32 % 2 ^ 16 / 8)).access ≡ 0x9A
unfolding gdt_init gdt_set_gate gate
kernel_code_access = refl
