-- ===== src/Arch.antt =====
-- Descriptor tables and the interrupt controller, kernel/src/arch/x86_64.
pub mod Gdt
pub mod Idt
mod Tests
