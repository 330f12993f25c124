-- ===== src/Mm/Heap/Reach.antt =====
-- Every heap that a run of `kmalloc` and `kfree` calls reaches from a fresh one.
use chef_os.Prelude.{
  ℕ, ◌+◌, ◌*◌, ◌^◌, ◌≤◌, ◌<◌, ◌≡◌, ◌≢◌, ap, ◌≢◌, refl, true, [], ◌∷◌, arith, Bool-cases, inl, inr,
  ap, some, u64,
}
use chef_os.Mm.Pmm.{Pmm, page_size, alloc_pages}
use chef_os.Mm.Pmm.Run.{TookRun, alloc_pages_lem}
use chef_os.Mm.Pmm.Count.{IsValid}
use chef_os.Mm.Heap.{
  HeapBlock, Heap, fits, taken, align8, kmalloc_walk, kmalloc, kfree, heap_init, initial_pages,
}
use chef_os.Mm.Heap.Tiling.{IsTiled}
use chef_os.Mm.Heap.Alloc.{kmalloc_lem}
use chef_os.Mm.Heap.Release.{live, kfree_lem}
use chef_os.Mm.Heap.Merged.{head_free, Merged}

-- A call of `kmalloc`, or of `kfree` on a block in use.
pub data Step : Heap → Heap → Type 0 where
  alloc : (h : Heap) (size : ℕ) → size + 7 < 2 ^ 64 → Step h (kmalloc h size).1
  release : (h g : Heap) (p len : ℕ) → live h p ≡ some len → kfree h p ≡ some g → Step h g

pub data Reach (h : Heap) : Heap → Type 0 where
  here : Reach h h
  next : {g f : Heap} → Reach h g → Step g f → Reach h f

-- Adjoining blocks between `start` and `end`, no two neighbours free.
pub record IsSound (start end : ℕ) (h : Heap) : Type 0 where
  pub tiled : IsTiled start end h
  pub merged : Merged h

Merged-taken :
    (n : ℕ) (b : HeapBlock) (bs : Heap) → Merged (b ∷ bs) → fits n b ≡ true → Merged (taken n b bs)
Merged-taken n b bs m fit = ground arith

kmalloc_walk-Merged :
    (n : ℕ) (h : Heap)
    → Merged h
    → Merged (kmalloc_walk n h).1 × (head_free (kmalloc_walk n h).1 ≡ true → head_free h ≡ true)
unfolding kmalloc_walk
kmalloc_walk-Merged n [] m = (tt, λ h. h)
kmalloc_walk-Merged n (b ∷ bs) m = elim (Bool-cases (fits n b)) [
  | inl fit ↦ rw fit (Merged-taken n b bs m fit, ground arith)
  | inr miss ↦
      let deeper = kmalloc_walk-Merged n bs m.1 in
      rw miss ((ground (arith, deeper.1, m.0), deeper.0), λ h. h)
]

-- The caller's view of a call that fails is covered too: nothing changes.
kmalloc-IsTiled :
    (start end : ℕ) (h : Heap) (size : ℕ)
    → IsTiled start end h
    → size + 7 < 2 ^ 64
    → IsTiled start end (kmalloc h size).1
kmalloc-IsTiled start end h size v small = elim (kmalloc_lem start end h size v small) [
  | inl (len, enough, g) ↦ record { tiles = g.tiles; low = v.low; high = v.high }
  | inr r ↦ rw r.unchanged v
]

Step-IsSound : (start end : ℕ) {h g : Heap} → IsSound start end h → Step h g → IsSound start end g
unfolding kmalloc
Step-IsSound start end s (alloc h size small) = record {
  tiled = kmalloc-IsTiled start end h size s.tiled small;
  merged = (kmalloc_walk-Merged (align8 size) h s.merged).0;
}
Step-IsSound start end s (release h g p len e freed) =
    let (f, same, given) = kfree_lem start end h p len s.tiled e in
    let eq : g ≡ f = cc (freed, same) in
    rw eq (record { tiled = given.tiled; merged = given.merged })

Reach-IsSound : (start end : ℕ) {h g : Heap} → IsSound start end h → Reach h g → IsSound start end g
Reach-IsSound start end s here = s
Reach-IsSound start end s (next r st) = Step-IsSound start end (Reach-IsSound start end s r) st

heap_init-IsSound :
    (s : Pmm) (hhdm : ℕ)
    → 4096 ≤ (alloc_pages s initial_pages).0 + hhdm
    → (alloc_pages s initial_pages).0 + hhdm + initial_pages * page_size < 2 ^ 64
    → IsSound
        ((alloc_pages s initial_pages).0 + hhdm)
        ((alloc_pages s initial_pages).0 + hhdm + initial_pages * page_size)
        (heap_init s hhdm).0
unfolding heap_init
heap_init-IsSound s hhdm low high =
    let at = (alloc_pages s initial_pages).0 in
    let whole : u64 (at + hhdm) ≡ at + hhdm = omega arith in
    rw whole (record {
      tiled = record { tiles = (refl, omega arith); low = low; high = high };
      merged = (refl, tt);
    })

-- Where the page allocator is in a valid state, `pmm_alloc_pages` gave `heap_init` its 8192 pages, and
-- these end below 2^64: the heap that it builds fills them with adjoining blocks and has no two free
-- neighbours, and so has every heap that calls of `kmalloc` for sizes below 2^64 - 7 and of `kfree` on
-- blocks in use reach from it.
pub reached_heap-IsSound :
    (s : Pmm) (hhdm : ℕ) (g : Heap)
    → IsValid s
    → (alloc_pages s initial_pages).0 ≢ 0
    → (alloc_pages s initial_pages).0 + hhdm + initial_pages * page_size < 2 ^ 64
    → Reach (heap_init s hhdm).0 g
    → IsSound
        ((alloc_pages s initial_pages).0 + hhdm)
        ((alloc_pages s initial_pages).0 + hhdm + initial_pages * page_size)
        g
reached_heap-IsSound s hhdm g v got high r =
    elim (alloc_pages_lem s initial_pages v (omega arith)) [
      | inl (k, took) ↦ Reach-IsSound _ _ (heap_init-IsSound s hhdm (low k took) high) r
      | inr full ↦ absurd (got (ap (λ out. out.0) full.unchanged))
    ]
  where
    low :
        (k : ℕ)
        → TookRun s initial_pages (alloc_pages s initial_pages) k
        → 4096 ≤ (alloc_pages s initial_pages).0 + hhdm
    low k took = omega (arith, took.pointer)
