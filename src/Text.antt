-- ===== src/Text.antt =====
-- The C string library of the kernel, kernel/src/lib/string.c, and its number printing.
pub mod Signed
pub mod Memory
pub mod Strings
pub mod Kprintf
mod Tests
