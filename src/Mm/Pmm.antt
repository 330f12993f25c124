-- ===== src/Mm/Pmm.antt =====
-- The physical page allocator of kernel/src/mm/pmm.c. Its static variables are the fields of `Pmm`,
-- and a pointer is its address, so `NULL` is 0. `s_hhdm` only turns the bitmap's physical address
-- into a pointer, and the bitmap is kept as its bytes.
pub mod Count
pub mod Single
pub mod Run
pub mod Free
pub mod Init
use chef_os.Prelude.{
  ℕ, zero, suc, ◌+◌, ◌*◌, ◌/◌, Bool, true, false, ◌&&◌, ◌==◌, ltb, if◌then◌else◌, u64, sub64,
}
use chef_os.Mm.Bitmap.{Bitmap, bitmap_set, bitmap_clear, bitmap_test}

abbrev pub page_size : ℕ
page_size = 4096

pub record Pmm : Type 0 where
  pub bitmap : Bitmap
  pub total_pages : ℕ
  pub free_pages : ℕ

-- `bitmap_set(i); s_free_pages--;`
abbrev pub take_page : ℕ → Pmm → Pmm
take_page i s = record s { bitmap = bitmap_set s.bitmap i; free_pages = sub64 s.free_pages 1 }

-- The loop of `pmm_alloc_page` at page `i`, with `left` rounds to go. The result is the pointer
-- and the new state.
pub alloc_page_loop : ℕ → ℕ → Pmm → ℕ × Pmm
alloc_page_loop zero i s = (0, s)
alloc_page_loop (suc left) i s =
    let rest = alloc_page_loop left (i + 1) s in
    if bitmap_test s.bitmap i then rest else (u64 (i * page_size), take_page i s)

unfoldable pub alloc_page : Pmm → ℕ × Pmm
unfolding alloc_page_loop
alloc_page s = alloc_page_loop s.total_pages 0 s

-- `for (j = from; j < from + left; j++) bitmap_set(j)`.
pub set_run : ℕ → ℕ → Bitmap → Bitmap
set_run zero from bm = bm
set_run (suc left) from bm = set_run left (from + 1) (bitmap_set bm from)

abbrev pub take_run : ℕ → ℕ → Pmm → Pmm
take_run count start s = record s {
  bitmap = set_run count start s.bitmap;
  free_pages = sub64 s.free_pages count;
}

-- `if (consecutive == 0) start_page = i;`
abbrev pub run_start : (i consecutive start_page : ℕ) → ℕ
run_start i consecutive start_page = if consecutive == 0 then i else start_page

-- The loop of `pmm_alloc_pages` for `count` pages: `consecutive` pages from `start_page` up to
-- page `i` were found free.
pub alloc_pages_loop : (count left i consecutive start_page : ℕ) → Pmm → ℕ × Pmm
alloc_pages_loop count zero i consecutive start_page s = (0, s)
alloc_pages_loop count (suc left) i consecutive start_page s =
    let broken = alloc_pages_loop count left (i + 1) 0 start_page s in
    let start = run_start i consecutive start_page in
    let longer = alloc_pages_loop count left (i + 1) (u64 (consecutive + 1)) start s in
    if bitmap_test s.bitmap i
    then broken
    else if u64 (consecutive + 1) == count
    then (u64 (start * page_size), take_run count start s)
    else longer

unfoldable pub alloc_pages : Pmm → ℕ → ℕ × Pmm
unfolding alloc_pages_loop
alloc_pages s count = alloc_pages_loop count s.total_pages 0 0 0 s

-- Frees a page that is in use.
abbrev pub release : ℕ → Pmm → Pmm
release page s =
    if bitmap_test s.bitmap page
    then record s { bitmap = bitmap_clear s.bitmap page; free_pages = u64 (s.free_pages + 1) }
    else s

unfoldable pub free_page : Pmm → ℕ → Pmm
free_page s ptr = if ltb (ptr / page_size) s.total_pages then release (ptr / page_size) s else s

-- The loop of `pmm_free_pages` from page `page` on. It has no test against `s_total_pages`.
pub free_run : ℕ → ℕ → Pmm → Pmm
free_run zero page s = s
free_run (suc left) page s = free_run left (u64 (page + 1)) (release page s)

unfoldable pub free_pages : Pmm → ℕ → ℕ → Pmm
unfolding free_run
free_pages s ptr count = free_run count (ptr / page_size) s

unfoldable pub get_free_memory : Pmm → ℕ
get_free_memory s = u64 (s.free_pages * page_size)

unfoldable pub get_total_memory : Pmm → ℕ
get_total_memory s = u64 (s.total_pages * page_size)
