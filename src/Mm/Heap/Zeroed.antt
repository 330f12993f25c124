-- ===== src/Mm/Heap/Zeroed.antt =====
-- `kzalloc` of kernel/src/mm/heap.c, and the bytes that it clears. The memory is that of the payloads;
-- the headers are the blocks of the list.
use chef_os.Prelude.{
  ℕ, ◌+◌, ◌^◌, ◌<◌, ◌≤◌, ◌≡◌, ap, ◌⊎◌, inl, inr, ◌==◌, true, false, if◌then◌else◌, arith,
}
use chef_os.Text.Memory.{Memory, memset}
use chef_os.Text.Memory.Move.{memset_lem}
use chef_os.Mm.Heap.{Heap, align8, kmalloc}
use chef_os.Mm.Heap.Tiling.{within, in_use, IsTiled}
use chef_os.Mm.Heap.Alloc.{Got, Refused, kmalloc_lem}

-- The pointer, the heap, and the memory.
pub record Zeroing : Type 0 where
  pub ptr : ℕ
  pub heap : Heap
  pub memory : Memory

-- `if (p) memset(p, 0, size);`
unfoldable pub clear_payload : (p size : ℕ) → Memory → Memory
clear_payload p size m = if p == 0 then m else memset size p 0 m

unfoldable pub kzalloc : Heap → (size : ℕ) → Memory → Zeroing
unfolding clear_payload
kzalloc h size m =
    let r = kmalloc h size in record { ptr = r.0; heap = r.1; memory = clear_payload r.0 size m }

-- The `size` bytes from the pointer on are zero, and every byte in use before is as it was.
pub record Cleared (size : ℕ) (h : Heap) (m : Memory) (z : Zeroing) : Type 0 where
  pub zero_bytes : (a : ℕ) → within z.ptr size a ≡ true → z.memory a ≡ 0
  pub kept : (a : ℕ) → in_use h a ≡ true → z.memory a ≡ m a

clear_zero :
    (p size : ℕ) (m : Memory) (a : ℕ)
    → 1 ≤ p
    → within p size a ≡ true
    → clear_payload p size m a ≡ 0
unfolding clear_payload
clear_zero p size m a given inside = ground (arith, memset_lem size p 0 m a)

clear_kept :
    (p size : ℕ) (m : Memory) (a : ℕ) → within p size a ≡ false → clear_payload p size m a ≡ m a
unfolding clear_payload
clear_kept p size m a outside = ground (arith, memset_lem size p 0 m a)

Cleared-Got :
    (start end n len size : ℕ) (h : Heap) (m : Memory)
    → size ≤ len
    → Got start end n h (kmalloc h size) len
    → Cleared size h m (kzalloc h size m)
unfolding kzalloc
Cleared-Got start end n len size h m enough g = record {
  zero_bytes = λ a. clear_zero (kmalloc h size).0 size m a (omega (arith, g.above));
  kept = λ a used. clear_kept (kmalloc h size).0 size m a (outside a used);
}
  where
    outside : (a : ℕ) → in_use h a ≡ true → within (kmalloc h size).0 size a ≡ false
    outside a used = ground (arith, g.was_free a)

-- For a size below 2^64 - 7, on a heap of adjoining blocks between the first page and 2^64, `kzalloc`
-- either hands out at least `size` bytes as `kmalloc` does, of which the first `size` are zero, and no byte of a block in use has changed; or no free block holds
-- the rounded size, and it returns 0 and changes neither the heap nor the memory.
pub kzalloc_lem :
    (start end : ℕ) (h : Heap) (size : ℕ) (m : Memory)
    → IsTiled start end h
    → size + 7 < 2 ^ 64
    → ((len : ℕ) × (size ≤ len)
        × Got start end (align8 size) h ((kzalloc h size m).ptr, (kzalloc h size m).heap) len
        × Cleared size h m (kzalloc h size m))
      ⊎ (Refused (align8 size) h ((kzalloc h size m).ptr, (kzalloc h size m).heap)
          × ((kzalloc h size m).memory ≡ m))
unfolding kzalloc
kzalloc_lem start end h size m v small = elim (kmalloc_lem start end h size v small) [
  | inl (len, enough, g) ↦
      inl (len, enough, g, Cleared-Got start end (align8 size) len size h m enough g)
  | inr r ↦ inr (r, ap (λ (out : ℕ × Heap). clear_payload out.0 size m) r.unchanged)
]
