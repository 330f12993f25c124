-- ===== src/Sys/Registers.antt =====
-- `syscall_init` of kernel/src/sys/syscall.c: the stack for system calls and the model-specific
-- registers. `entry_stub` is the address of the assembly entry.
use chef_os.Prelude.{ℕ, ◌+◌, ◌*◌, List, [], ◌∷◌, bit_or, shl, u64, sub64}
use chef_os.Arch.Gdt.{Tss, tss_set_kernel_stack}
use chef_os.Mm.Pmm.{Pmm, page_size, alloc_pages}

pub record MsrWrite : Type 0 where
  pub register : ℕ
  pub value : ℕ

abbrev pub msr_efer : ℕ
msr_efer = 0xC0000080

abbrev pub msr_star : ℕ
msr_star = 0xC0000081

abbrev pub msr_lstar : ℕ
msr_lstar = 0xC0000082

abbrev pub msr_sfmask : ℕ
msr_sfmask = 0xC0000084

-- The selectors that `sysret` and `syscall` count from.
abbrev pub star : ℕ
star = bit_or (shl 0x0010 48) (shl 0x0008 32)

-- `g_kernel_syscall_stack`, the task state segment, the registers in the order in which they are
-- written, and the allocator.
pub record SyscallSetup : Type 0 where
  pub kernel_stack : ℕ
  pub tss : Tss
  pub registers : List MsrWrite
  pub pmm : Pmm

abbrev pub stack_top : (stack_phys hhdm : ℕ) → ℕ
stack_top stack_phys hhdm = sub64 (u64 (stack_phys + hhdm + 4 * page_size)) 16

unfoldable pub syscall_init : (hhdm efer entry_stub : ℕ) → Tss → Pmm → SyscallSetup
unfolding alloc_pages tss_set_kernel_stack
syscall_init hhdm efer entry_stub tss pmm =
    let stack = alloc_pages pmm 4 in
    record {
      kernel_stack = stack_top stack.0 hhdm;
      tss = tss_set_kernel_stack (stack_top stack.0 hhdm) tss;
      registers =
          record { register = msr_efer; value = bit_or efer 1 }
          ∷ record { register = msr_star; value = star }
          ∷ record { register = msr_lstar; value = entry_stub }
          ∷ record { register = msr_sfmask; value = bit_or (bit_or 0x200 0x100) 0x400 }
          ∷ [];
      pmm = stack.1;
    }
