-- ===== src/Mm.antt =====
-- Memory management, kernel/src/mm: the heap, the physical pages and the page tables.
pub mod Bitmap
pub mod Pmm
pub mod Heap
pub mod Vmm
mod Tests
