-- ===== src/Mm/Pmm/Init/Overrun.antt =====
-- The end of the region that `pmm_init` cuts the bitmap from: the base moves by whole pages and the
-- length by bytes.
use chef_os.Prelude.{
  ℕ, zero, suc, ◌+◌, ◌-◌, ◌*◌, ◌/◌, ◌%◌, ◌^◌, ◌≤◌, ◌<◌, ◌≡◌, ◌≢◌, Bool, true, false, ◌&&◌, leb, ltb,
  [], ◌∷◌, some, Bool-cases, arith, u64, inl, inr, ◌∙◌,
}
use chef_os.Mm.Bitmap.{IsBytes, bitmap_clear}
use chef_os.Mm.Pmm.{Pmm, page_size}
use chef_os.Mm.Pmm.Count.{used, count_free}
use chef_os.Mm.Pmm.Init.{
  MemmapEntry, top, cut_bitmap, free_range, free_entry, free_regions, highest_addr, place_bitmap,
  bitmap_size, page_count, placed, init,
}
use chef_os.Mm.Pmm.Init.Freeing.{covers, Freed, free_entry-Freed, placed-used, first_bitmap-IsBytes}

-- The rounds that the loop over a region takes.
abbrev rounds : ℕ → ℕ → ℕ
rounds addr end = (end - addr + (page_size - 1)) / page_size

free_pages-free_range :
    (fuel addr end : ℕ) (s : Pmm)
    → end + page_size ≤ 2 ^ 64
    → end ≤ addr + fuel * page_size
    → s.free_pages + fuel < 2 ^ 64
    → (free_range fuel addr end s).free_pages ≡ s.free_pages + rounds addr end
unfolding free_range
free_pages-free_range zero addr end s room long small = omega arith
free_pages-free_range (suc fuel) addr end s room long small = elim (Bool-cases (ltb addr end)) [
  | inl more ↦
      let next : u64 (addr + page_size) ≡ addr + page_size = ground arith in
      let one : u64 (s.free_pages + 1) ≡ s.free_pages + 1 = omega arith in
      rw (more, next, one)
        (free_pages-free_range fuel (addr + page_size) end
            (record s {
              bitmap = bitmap_clear s.bitmap (addr / page_size);
              free_pages = s.free_pages + 1;
            })
            room (omega arith) (omega arith)
          ∙ ground arith)
  | inr past ↦ rw past (ground arith)
]

-- Of `n` pages of which the lowest `low` are in use, `n - low` are free.
count_free_above :
    (f : ℕ → Bool) (low n : ℕ) → ((j : ℕ) → j < n → f j ≡ ltb j low) → count_free f n ≡ n - low
unfolding count_free
count_free_above f low zero h = omega arith
count_free_above f low (suc n) h =
    ground (arith, h n, count_free_above f low n (λ j p. h j (omega arith)))

-- A usable region of `n` pages from page `b` on.
abbrev pub region : ℕ → ℕ → MemmapEntry
region b n = record { base = page_size * b; length = page_size * n; kind = 0 }

-- The region after the cut for a bitmap of all the pages below its end.
abbrev cut : ℕ → ℕ → MemmapEntry
cut b n = cut_bitmap (bitmap_size (b + n)) (region b n)

module _ (b n : ℕ) (low : page_size * (b + n + 2) ≤ 2 ^ 64) (pos : 0 < n)
    (fits : bitmap_size (b + n) ≤ page_size * n) where
  page_count-region : page_count (region b n ∷ []) ≡ b + n
  unfolding highest_addr
  page_count-region = ground arith

  place_bitmap-region :
      place_bitmap (bitmap_size (b + n)) (region b n ∷ []) ≡ (some (page_size * b), cut b n ∷ [])
  unfolding place_bitmap
  place_bitmap-region = ground arith

  module _ (memory : ℕ → ℕ) (hhdm : ℕ) (s : Pmm) (bytes : IsBytes memory)
      (part : bitmap_size (b + n) % page_size ≢ 0) where
    start : Pmm
    start = placed memory hhdm (b + n) (some (page_size * b))

    result : Pmm
    result = init memory hhdm (some (region b n ∷ [])) s

    result-eq : result ≡ free_entry (cut b n) start
    unfolding result start init free_regions
    result-eq = rw (page_count-region, place_bitmap-region)

    -- The cut region ends one page above the region.
    cut-top : (cut b n).base + (cut b n).length ≤ page_size * (b + n + 1)
    cut-top = omega arith

    covers-cut :
        (j : ℕ)
        → covers (cut b n) j
          ≡ (leb (b + (bitmap_size (b + n) / page_size + 1)) j && ltb j (b + n + 1))
    covers-cut j = ground arith

    freed : Freed start (free_entry (cut b n) start) (covers (cut b n))
    unfolding start
    freed =
        free_entry-Freed (cut b n) start
          (first_bitmap-IsBytes memory hhdm (bitmap_size (b + n)) (some (page_size * b)) bytes)
          (omega arith, omega arith)

    -- The first page past the region, page `b + n`, is marked free.
    past_end_free : used (free_entry (cut b n) start) (b + n) ≡ false
    past_end_free = ground (arith, freed.now_free (b + n), covers-cut (b + n))

    below_used :
        (j : ℕ)
        → j < b + n
        → used (free_entry (cut b n) start) j ≡ ltb j (b + (bitmap_size (b + n) / page_size + 1))
    below_used j lt = ground (arith, freed.now_free j, covers-cut j, full)
      where
        full : used start j ≡ true
        full = unfold start in placed-used memory hhdm (b + n) (page_size * b) j (omega arith) lt

    counter : (free_entry (cut b n) start).free_pages ≡ n - bitmap_size (b + n) / page_size
    unfolding start
    counter =
        free_pages-free_range ((cut b n).length / page_size + 1) (cut b n).base (top (cut b n))
          start (omega arith) (omega arith) (omega arith)
        ∙ omega arith

    -- `s_free_pages` is one more than the number of free pages.
    one_too_many :
        (free_entry (cut b n) start).free_pages
        ≡ suc (count_free (used (free_entry (cut b n) start)) (b + n))
    one_too_many = omega (arith, counter, count_free_above _ _ (b + n) below_used)

-- For a memory map of one usable region of `n` pages from page `b` on, whose bitmap does not fill
-- its last page, `pmm_init` marks page `b + n` free, which lies past the region's end, and leaves
-- `s_free_pages` one above the number of free pages.
pub init_overrun :
    (memory : ℕ → ℕ) (hhdm b n : ℕ) (s : Pmm)
    → IsBytes memory
    → 0 < n
    → page_size * (b + n + 2) ≤ 2 ^ 64
    → bitmap_size (b + n) ≤ page_size * n
    → bitmap_size (b + n) % page_size ≢ 0
    → (used (init memory hhdm (some (region b n ∷ [])) s) (b + n) ≡ false)
      × ((init memory hhdm (some (region b n ∷ [])) s).free_pages
          ≡ suc (count_free (used (init memory hhdm (some (region b n ∷ [])) s)) (b + n)))
unfolding result
init_overrun memory hhdm b n s bytes pos low fits part =
    rw (result-eq b n low pos fits memory hhdm s bytes part) (
      past_end_free b n low pos fits memory hhdm s bytes part,
      one_too_many b n low pos fits memory hhdm s bytes part,
    )
