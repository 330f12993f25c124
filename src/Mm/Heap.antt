-- ===== src/Mm/Heap.antt =====
-- The kernel heap of kernel/src/mm/heap.c. The headers form one chain from `s_head` by `next`, and
-- the code reads and writes them in that order only, so the chain is a list of headers with their
-- addresses. A pointer is its address, and `NULL` is 0.
pub mod Tiling
pub mod Alloc
pub mod Release
pub mod Merged
pub mod RoundTrip
pub mod Reach
pub mod Zeroed
use chef_os.Prelude.{
  ℕ, ◌+◌, ◌-◌, ◌*◌, ◌/◌, ◌==◌, leb, Bool, true, false, ◌&&◌, if◌then◌else◌, List, [], ◌∷◌, Option,
  none, some, u64, sub64,
}
use mathlib.Core.Option
use chef_os.Mm.Pmm.{Pmm, page_size, alloc_pages}

-- `heap_block_t`, with its address; `sizeof(heap_block_t)` is 24.
pub record HeapBlock : Type 0 where
  pub addr : ℕ
  pub size : ℕ
  pub is_free : Bool

abbrev pub header : ℕ
header = 24

abbrev pub Heap : Type 0
Heap = List HeapBlock

abbrev pub initial_pages : ℕ
initial_pages = 8192

-- One free block over the pages that `pmm_alloc_pages` gave.
unfoldable pub heap_init : Pmm → (hhdm : ℕ) → Heap × Pmm
heap_init s hhdm =
    let (phys, s') = alloc_pages s initial_pages in
    (
      record { addr = u64 (phys + hhdm); size = initial_pages * page_size - header; is_free = true }
          ∷ [],
      s',
    )

-- `(size + 7) & ~7`
abbrev pub align8 : ℕ → ℕ
align8 size = u64 (size + 7) / 8 * 8

abbrev pub payload : HeapBlock → ℕ
payload b = u64 (b.addr + header)

abbrev pub fits : ℕ → HeapBlock → Bool
fits n b = b.is_free && leb n b.size

-- The block that stays and the free block split off it.
abbrev pub split_front : ℕ → HeapBlock → HeapBlock
split_front n b = record b { size = n; is_free = false }

abbrev pub split_rest : ℕ → HeapBlock → HeapBlock
split_rest n b = record {
  addr = u64 (b.addr + header + n);
  size = sub64 (sub64 b.size n) header;
  is_free = true;
}

-- What becomes of the block that `kmalloc` takes.
abbrev pub taken : ℕ → HeapBlock → Heap → Heap
taken n b bs =
    if leb (u64 (n + header + 32)) b.size
    then split_front n b ∷ split_rest n b ∷ bs
    else record b { is_free = false } ∷ bs

-- The loop of `kmalloc` for an aligned size.
unfoldable pub kmalloc_walk : ℕ → Heap → ℕ × Heap
kmalloc_walk n [] = (0, [])
kmalloc_walk n (b ∷ bs) =
    let rest = kmalloc_walk n bs in
    if fits n b then (payload b, taken n b bs) else (rest.0, b ∷ rest.1)

unfoldable pub kmalloc : Heap → ℕ → ℕ × Heap
unfolding kmalloc_walk
kmalloc h size = kmalloc_walk (align8 size) h

-- `block->is_free = true` for the header at `addr`; `none` is a store that hits no header.
unfoldable pub set_free : ℕ → Heap → Option Heap
set_free addr [] = none
set_free addr (b ∷ bs) =
    let rest = set_free addr bs in
    if b.addr == addr
    then some (record b { is_free = true } ∷ bs)
    else Option.map (λ bs'. b ∷ bs') rest

abbrev pub join : HeapBlock → HeapBlock → HeapBlock
join b c = record b { size = u64 (b.size + u64 (header + c.size)) }

-- The loop of `kfree` at block `b` with the blocks behind it: it stays at `b` after a merge.
unfoldable pub merge_from : HeapBlock → Heap → Heap
merge_from b [] = b ∷ []
merge_from b (c ∷ bs) = elim (b.is_free && c.is_free) [
  | true ↦ merge_from (join b c) bs
  | false ↦ b ∷ merge_from c bs
]

unfoldable pub merge : Heap → Heap
unfolding merge_from
merge [] = []
merge (b ∷ bs) = merge_from b bs

unfoldable pub kfree : Heap → ℕ → Option Heap
unfolding set_free merge
kfree h ptr = if ptr == 0 then some h else Option.map merge (set_free (sub64 ptr header) h)
