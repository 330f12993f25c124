-- ===== src/Mm/Tests.antt =====
-- The memory management theorems at concrete states, and small runs of the code.
use chef_os.Prelude.{
  ℕ, leb, ◌&&◌, ◌||◌, suc, ◌+◌, ◌*◌, ◌^◌, ◌≤◌, ◌<◌, ◌≡◌, ◌≢◌, ◌⊎◌, refl, true, false, not, ◌==◌,
  if◌then◌else◌, List, [], ◌∷◌, some, arith,
}
use chef_os.Mm.Bitmap.{Bitmap, IsBytes, bitmap_test, byte_test}
use chef_os.Mm.Pmm.{Pmm, page_size, alloc_page, alloc_pages, free_pages}
use chef_os.Mm.Pmm.Count.{IsValid, used, count_free}
use chef_os.Mm.Pmm.Single.{Took, Exhausted, alloc_page_lem}
use chef_os.Mm.Pmm.Run.{TookRun, NoRun, alloc_pages_lem}
use chef_os.Mm.Pmm.Free.{free_pages-alloc_pages}
use chef_os.Mm.Pmm.Init.{MemmapEntry, usable, init, page_count, bitmap_size, highest_addr}
use chef_os.Mm.Pmm.Init.Regions.{left_of, init-covered}
use chef_os.Mm.Pmm.Init.Freeing.{covered}
use chef_os.Mm.Pmm.Init.Overrun.{region, init_overrun}
use chef_os.Mm.Heap.{Heap, kmalloc, kfree, heap_init, initial_pages}
use chef_os.Text.Memory.{Memory}
use chef_os.Mm.Heap.Zeroed.{Cleared, kzalloc, kzalloc_lem}
use chef_os.Mm.Heap.Tiling.{IsTiled}
use chef_os.Mm.Heap.Alloc.{Got, Refused, kmalloc_lem}
use chef_os.Mm.Heap.Release.{live, Given, kfree_lem}
use chef_os.Mm.Heap.RoundTrip.{kfree-kmalloc}
use chef_os.Mm.Heap.Reach.{alloc, here, next, IsSound, reached_heap-IsSound}

-- Sixteen pages, of which the lowest four are in use.
abbrev four_used : Bitmap
four_used i = if i == 0 then 0x0F else 0

four_used-IsBytes : IsBytes four_used
four_used-IsBytes i = ground arith

abbrev pages : Pmm
pages = record { bitmap = four_used; total_pages = 16; free_pages = 12 }

pages-IsValid : IsValid pages
unfolding count_free bitmap_test byte_test
pages-IsValid = record { bytes = four_used-IsBytes; small = omega arith; counted = refl }

alloc_page_runs : (alloc_page pages).0 ≡ 0x4000
unfolding alloc_page bitmap_test byte_test
alloc_page_runs = refl

alloc_pages_runs : (alloc_pages pages 3).0 ≡ 0x4000
unfolding alloc_pages bitmap_test byte_test
alloc_pages_runs = refl

alloc_page_lem_example :
    ((k : ℕ) × Took pages 0 (alloc_page pages) k) ⊎ Exhausted pages 0 (alloc_page pages)
alloc_page_lem_example = alloc_page_lem pages pages-IsValid

alloc_pages_lem_example :
    ((k : ℕ) × TookRun pages 3 (alloc_pages pages 3) k) ⊎ NoRun pages 3 (alloc_pages pages 3)
alloc_pages_lem_example = alloc_pages_lem pages 3 pages-IsValid (omega arith)

alloc_pages_not_null : (alloc_pages pages 3).0 ≢ 0
unfolding alloc_pages bitmap_test byte_test
alloc_pages_not_null = omega arith

free_pages-alloc_pages_example :
    ((j : ℕ) → used (free_pages (alloc_pages pages 3).1 (alloc_pages pages 3).0 3) j ≡ used pages j)
    × ((free_pages (alloc_pages pages 3).1 (alloc_pages pages 3).0 3).free_pages ≡ 12)
free_pages-alloc_pages_example =
    free_pages-alloc_pages pages 3 pages-IsValid (omega arith) alloc_pages_not_null

-- Memory that is all zero, and a map of one usable region of 16 pages from page 4 on.
abbrev zeros : ℕ → ℕ
zeros a = 0

zeros-IsBytes : IsBytes zeros
zeros-IsBytes a = omega arith

abbrev entries : List MemmapEntry
entries = region 4 16 ∷ []

entries_size : bitmap_size (page_count entries) ≡ 3
unfolding highest_addr
entries_size = refl

entries_pages : 7 < page_count entries
unfolding highest_addr
entries_pages = omega arith

entries_room :
    (usable (region 4 16) && leb (bitmap_size (page_count entries)) (region 4 16).length) ≡ true
entries_room = rw entries_size refl

init-covered_example :
    used (init zeros 0 (some entries) pages) 7
    ≡ not (
        covered [] 7
        || (left_of (bitmap_size (page_count entries)) (region 4 16) 7 || covered [] 7))
init-covered_example =
    init-covered zeros 0 [] [] (region 4 16) pages zeros-IsBytes tt entries_room tt tt (omega arith)
      (omega arith) 7 entries_pages

init_overrun_example :
    (used (init zeros 0 (some entries) pages) 20 ≡ false)
    × ((init zeros 0 (some entries) pages).free_pages
        ≡ suc (count_free (used (init zeros 0 (some entries) pages)) 20))
init_overrun_example =
    init_overrun zeros 0 4 16 pages zeros-IsBytes (omega arith) (omega arith) (omega arith)
      (omega arith)

-- A heap of 0x300 bytes at 0x10000 with a block in use at its start.
abbrev blocks : Heap
blocks =
    record { addr = 0x10000; size = 0x40; is_free = false }
    ∷ record { addr = 0x10058; size = 0x290; is_free = true }
    ∷ []

blocks-IsTiled : IsTiled 0x10000 0x10300 blocks
blocks-IsTiled = record { tiles = (refl, (refl, refl)); low = omega arith; high = omega arith }

kmalloc_runs : (kmalloc blocks 100).0 ≡ 0x10070
unfolding kmalloc
kmalloc_runs = refl

kmalloc_lem_example :
    ((len : ℕ) × (100 ≤ len) × Got 0x10000 0x10300 104 blocks (kmalloc blocks 100) len)
    ⊎ Refused 104 blocks (kmalloc blocks 100)
kmalloc_lem_example = kmalloc_lem 0x10000 0x10300 blocks 100 blocks-IsTiled (omega arith)

-- Memory full of ones.
abbrev ones : Memory
ones a = 0xFF

kzalloc_lem_example :
    ((len : ℕ) × (100 ≤ len)
      × Got 0x10000 0x10300 104 blocks
          ((kzalloc blocks 100 ones).ptr, (kzalloc blocks 100 ones).heap)
          len
      × Cleared 100 blocks ones (kzalloc blocks 100 ones))
    ⊎ (Refused 104 blocks ((kzalloc blocks 100 ones).ptr, (kzalloc blocks 100 ones).heap)
        × ((kzalloc blocks 100 ones).memory ≡ ones))
kzalloc_lem_example = kzalloc_lem 0x10000 0x10300 blocks 100 ones blocks-IsTiled (omega arith)

block_live : live blocks 0x10018 ≡ some 0x40
unfolding live
block_live = refl

kfree_lem_example :
    (g : Heap) × (kfree blocks 0x10018 ≡ some g) × Given 0x10000 0x10300 blocks g 0x10018 0x40
kfree_lem_example = kfree_lem 0x10000 0x10300 blocks 0x10018 0x40 blocks-IsTiled block_live

kmalloc_not_null : (kmalloc blocks 100).0 ≢ 0
unfolding kmalloc
kmalloc_not_null = omega arith

kfree-kmalloc_example : kfree (kmalloc blocks 100).1 (kmalloc blocks 100).0 ≡ some blocks
kfree-kmalloc_example =
    kfree-kmalloc 0x10000 0x10300 blocks 100 blocks-IsTiled (refl, (refl, tt)) kmalloc_not_null

-- Enough pages for the kernel heap.
abbrev first_used : Bitmap
first_used i = if i == 0 then 1 else 0

abbrev machine : Pmm
machine = record { bitmap = first_used; total_pages = 8200; free_pages = 8199 }

machine-IsValid : IsValid machine
unfolding count_free bitmap_test byte_test
machine-IsValid = record { bytes = λ i. ground arith; small = omega arith; counted = refl }

machine_heap : (alloc_pages machine initial_pages).0 ≡ 0x1000
unfolding alloc_pages bitmap_test byte_test
machine_heap = refl

machine_heap_not_null : (alloc_pages machine initial_pages).0 ≢ 0
machine_heap_not_null = omega (arith, machine_heap)

machine_heap_room :
    (alloc_pages machine initial_pages).0 + 2 ^ 40 + initial_pages * page_size < 2 ^ 64
machine_heap_room = omega (arith, machine_heap)

abbrev one_call : Heap
one_call = (kmalloc (heap_init machine (2 ^ 40)).0 100).1

reached_heap-IsSound_example :
    IsSound
      ((alloc_pages machine initial_pages).0 + 2 ^ 40)
      ((alloc_pages machine initial_pages).0 + 2 ^ 40 + initial_pages * page_size)
      one_call
reached_heap-IsSound_example =
    reached_heap-IsSound machine (2 ^ 40) one_call machine-IsValid machine_heap_not_null
      machine_heap_room (next here (alloc (heap_init machine (2 ^ 40)).0 100 (omega arith)))
