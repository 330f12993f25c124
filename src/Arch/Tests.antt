-- ===== src/Arch/Tests.antt =====
-- The theorems on descriptor tables at concrete entries.
use chef_os.Prelude.{ℕ, ◌≡◌, refl}
use chef_os.Arch.Gdt.{GdtEntry, gate, limit_of, gdt_init}

abbrev table : ℕ → GdtEntry
table i = gate 0 0 0 0

-- The code segment of the kernel.
kernel_code : limit_of (gdt_init 0xFFFF800000001000 table 1) ≡ 0xFFFFF
unfolding gdt_init limit_of
kernel_code = refl
