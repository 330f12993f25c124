-- ===== src/Mm/Pmm/Init.antt =====
-- `pmm_init` of kernel/src/mm/pmm.c: the bitmap is placed in the first usable region that is long
-- enough, every page starts as used, and the pages of the usable regions are freed. `memory` holds
-- the bytes at each virtual address before the call.
pub mod Freeing
pub mod Regions
pub mod Overrun
use chef_os.Prelude.{
  ℕ, zero, suc, ◌+◌, ◌-◌, ◌*◌, ◌/◌, ◌==◌, leb, ltb, Bool, ◌&&◌, if◌then◌else◌, List, [], ◌∷◌,
  Option, none, some, u64,
}
use chef_os.Mm.Bitmap.{Bitmap, bitmap_clear}
use chef_os.Mm.Pmm.{Pmm, page_size}

-- `struct limine_memmap_entry`; the type `LIMINE_MEMMAP_USABLE` is 0.
pub record MemmapEntry : Type 0 where
  pub base : ℕ
  pub length : ℕ
  pub kind : ℕ

abbrev pub usable : MemmapEntry → Bool
usable e = e.kind == 0

abbrev pub top : MemmapEntry → ℕ
top e = u64 (e.base + e.length)

-- The first loop: the highest end of a usable region.
unfoldable pub highest_addr : List MemmapEntry → ℕ → ℕ
highest_addr [] high = high
highest_addr (e ∷ es) high = highest_addr es (if usable e && ltb high (top e) then top e else high)

-- `s_total_pages`.
abbrev pub page_count : List MemmapEntry → ℕ
page_count entries = highest_addr entries 0 / page_size

-- `(n + PAGE_SIZE - 1) & ~(PAGE_SIZE - 1)`
abbrev pub page_round_up : ℕ → ℕ
page_round_up n = u64 (n + (page_size - 1)) / page_size * page_size

-- Room for the bitmap is cut off the front of a region: `base` moves by whole pages, `length` by
-- the bytes of the bitmap.
abbrev pub cut_bitmap : ℕ → MemmapEntry → MemmapEntry
cut_bitmap size e = record e { base = u64 (e.base + page_round_up size); length = e.length - size }

-- The second loop: the base of the region that holds the bitmap, and the regions after the cut.
unfoldable pub place_bitmap : ℕ → List MemmapEntry → Option ℕ × List MemmapEntry
place_bitmap size [] = (none, [])
place_bitmap size (e ∷ es) =
    let (found, rest) = place_bitmap size es in
    if usable e && leb size e.length
    then (some e.base, cut_bitmap size e ∷ es)
    else (found, e ∷ rest)

-- The inner loop of the third: frees page after page from `addr` on, below `end`.
unfoldable pub free_range : ℕ → ℕ → ℕ → Pmm → Pmm
free_range zero addr end s = s
free_range (suc fuel) addr end s =
    let rest = free_range fuel (u64 (addr + page_size)) end (record s {
      bitmap = bitmap_clear s.bitmap (addr / page_size);
      free_pages = u64 (s.free_pages + 1);
    }) in
    if ltb addr end then rest else s

-- A region of `length` bytes takes at most `length / page_size + 1` rounds.
abbrev pub free_entry : MemmapEntry → Pmm → Pmm
free_entry e s = if usable e then free_range (e.length / page_size + 1) e.base (top e) s else s

unfoldable pub free_regions : List MemmapEntry → Pmm → Pmm
free_regions [] s = s
free_regions (e ∷ es) s = free_regions es (free_entry e s)

-- The bytes from `s_bitmap` on, which stays `NULL` if no region had room.
abbrev pub first_bitmap : (memory : ℕ → ℕ) (hhdm size : ℕ) → Option ℕ → Bitmap
first_bitmap memory hhdm size none = memory
first_bitmap memory hhdm size (some base) =
    λ i. if ltb i size then 0xFF else memory (u64 (base + hhdm) + i)

abbrev pub bitmap_size : ℕ → ℕ
bitmap_size total = u64 (total + 7) / 8

-- The state after the bitmap is in place, before a page is freed.
abbrev pub placed : (memory : ℕ → ℕ) (hhdm total : ℕ) → Option ℕ → Pmm
placed memory hhdm total at = record {
  bitmap = first_bitmap memory hhdm (bitmap_size total) at;
  total_pages = total;
  free_pages = 0;
}

-- `pmm_init`; `none` is a null response, and leaves the static variables as they were.
unfoldable pub init : (memory : ℕ → ℕ) (hhdm : ℕ) → Option (List MemmapEntry) → Pmm → Pmm
unfolding highest_addr place_bitmap free_range free_regions
init memory hhdm none s = s
init memory hhdm (some entries) s =
    let total = page_count entries in
    let (at, regions) = place_bitmap (bitmap_size total) entries in
    free_regions regions (placed memory hhdm total at)
