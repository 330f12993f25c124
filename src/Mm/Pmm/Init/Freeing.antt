-- ===== src/Mm/Pmm/Init/Freeing.antt =====
-- What the third loop of `pmm_init` frees.
use chef_os.Prelude.{
  ℕ, zero, suc, ◌+◌, ◌*◌, ◌/◌, ◌%◌, ◌^◌, ◌≤◌, ◌<◌, ◌≡◌, refl, Bool, true, false, not, ◌&&◌, ◌||◌,
  leb, ltb, List, [], ◌∷◌, Option, none, some, Bool-cases, arith, u64, inl, inr, ◌∙◌,
}
use chef_os.Prelude.Bits.{passes, passes_at}
use chef_os.Mm.Bitmap.{IsBytes, byte_test, bitmap_test, bitmap_clear}
use chef_os.Mm.Bitmap.Bits.{bitmap_clear-IsBytes, bitmap_test-bitmap_clear}
use chef_os.Mm.Pmm.{Pmm, page_size}
use chef_os.Mm.Pmm.Count.{used}
use chef_os.Mm.Pmm.Init.{
  MemmapEntry, usable, top, free_range, free_entry, free_regions, highest_addr, place_bitmap,
  first_bitmap, bitmap_size, page_count, placed, init,
}

-- Page `j` starts in the region.
abbrev pub covers : MemmapEntry → ℕ → Bool
covers e j = usable e && (leb (e.base / page_size) j && ltb (j * page_size) (e.base + e.length))

unfoldable pub covered : List MemmapEntry → ℕ → Bool
covered [] j = false
covered (e ∷ es) j = covers e j || covered es j

-- Regions start at a page and end at least a page below 2 ^ 64.
abbrev pub Fits : MemmapEntry → Type 0
Fits e = (e.base % page_size ≡ 0) × (e.base + e.length + page_size ≤ 2 ^ 64)

abbrev pub AllFit : List MemmapEntry → Type 0
AllFit [] = Unit
AllFit (e ∷ es) = Fits e × AllFit es

-- The outcome of a free loop over the pages that `area` names.
pub record Freed (s t : Pmm) (area : ℕ → Bool) : Type 0 where
  pub now_free : (j : ℕ) → used t j ≡ (not (area j) && used s j)
  pub bytes : IsBytes t.bitmap
  pub same_total : t.total_pages ≡ s.total_pages

-- The loop over one region, on any fuel that lasts to its end.
pub free_range-Freed :
    (fuel addr end : ℕ) (s : Pmm)
    → IsBytes s.bitmap
    → addr % page_size ≡ 0
    → end + page_size ≤ 2 ^ 64
    → end ≤ addr + fuel * page_size
    → Freed s
        (free_range fuel addr end s)
        (λ j. leb (addr / page_size) j && ltb (j * page_size) end)
unfolding free_range
free_range-Freed zero addr end s h al room long = record {
  now_free = λ j. ground arith;
  bytes = h;
  same_total = refl;
}
free_range-Freed (suc fuel) addr end s h al room long = elim (Bool-cases (ltb addr end)) [
  | inl more ↦
      let next : u64 (addr + page_size) ≡ addr + page_size = ground arith in
      let rest =
        free_range-Freed fuel (addr + page_size) end
          (record s {
            bitmap = bitmap_clear s.bitmap (addr / page_size);
            free_pages = u64 (s.free_pages + 1);
          })
          (bitmap_clear-IsBytes (addr / page_size) h) (omega arith) room (omega arith) in
      rw (more, next)
        (record {
          now_free =
              λ j. ground (arith, rest.now_free j, bitmap_test-bitmap_clear (addr / page_size) j h);
          bytes = rest.bytes;
          same_total = rest.same_total;
        })
  | inr past ↦ rw past (record { now_free = λ j. ground arith; bytes = h; same_total = refl })
]

pub free_entry-Freed :
    (e : MemmapEntry) (s : Pmm) → IsBytes s.bitmap → Fits e → Freed s (free_entry e s) (covers e)
free_entry-Freed e s h (al, room) = elim (Bool-cases (usable e)) [
  | inl use_it ↦
      let whole : top e ≡ e.base + e.length = omega arith in
      let run =
        free_range-Freed (e.length / page_size + 1) e.base (e.base + e.length) s h al room
          (omega arith) in
      rw (use_it, whole)
        (record {
          now_free = λ j. ground (arith, run.now_free j);
          bytes = run.bytes;
          same_total = run.same_total;
        })
  | inr skip ↦ rw skip (record { now_free = λ j. ground arith; bytes = h; same_total = refl })
]

-- The loop over the memory map frees the pages of its usable regions and no other.
pub free_regions-Freed :
    (es : List MemmapEntry) (s : Pmm)
    → IsBytes s.bitmap
    → AllFit es
    → Freed s (free_regions es s) (covered es)
unfolding free_regions covered
free_regions-Freed [] s h fit = record { now_free = λ j. refl; bytes = h; same_total = refl }
free_regions-Freed (e ∷ es) s h fit =
    let first = free_entry-Freed e s h fit.0 in
    let rest = free_regions-Freed es (free_entry e s) first.bytes fit.1 in
    record {
      now_free = λ j. ground (arith, first.now_free j, rest.now_free j);
      bytes = rest.bytes;
      same_total = rest.same_total ∙ first.same_total;
    }

pub first_bitmap-IsBytes :
    (memory : ℕ → ℕ) (hhdm size : ℕ) (at : Option ℕ)
    → IsBytes memory
    → IsBytes (first_bitmap memory hhdm size at)
first_bitmap-IsBytes memory hhdm size none h i = h i
first_bitmap-IsBytes memory hhdm size (some base) h i = ground (arith, h (u64 (base + hhdm) + i))

byte_test_full : (k : ℕ) → k < 8 → byte_test 0xFF k ≡ true
unfolding byte_test
byte_test_full k lt = passes_at 8 (λ k. byte_test 0xFF k) k (unfold passes in refl) lt

-- Before a page is freed every page that exists is in use, once the bitmap has a place.
pub placed-used :
    (memory : ℕ → ℕ) (hhdm total base j : ℕ)
    → total ≤ 2 ^ 52
    → j < total
    → used (placed memory hhdm total (some base)) j ≡ true
unfolding bitmap_test
placed-used memory hhdm total base j small lt =
    let inside : ltb (j / 8) (bitmap_size total) ≡ true = ground arith in
    rw inside (byte_test_full (j % 8) (omega arith))

highest_addr-lt : (es : List MemmapEntry) (high : ℕ) → high < 2 ^ 64 → highest_addr es high < 2 ^ 64
unfolding highest_addr
highest_addr-lt [] high h = h
highest_addr-lt (e ∷ es) high h = highest_addr-lt es _ (ground arith)

-- Every page that exists has its address below 2 ^ 64.
pub page_count-le : (entries : List MemmapEntry) → page_count entries ≤ 2 ^ 52
page_count-le entries = omega (arith, highest_addr-lt entries 0 (omega arith))

pub init-regions :
    (memory : ℕ → ℕ) (hhdm base : ℕ) (entries regions : List MemmapEntry) (s : Pmm)
    → IsBytes memory
    → place_bitmap (bitmap_size (page_count entries)) entries ≡ (some base, regions)
    → AllFit regions
    → (j : ℕ) → j < page_count entries
    → used (init memory hhdm (some entries) s) j ≡ not (covered regions j)
unfolding init
init-regions memory hhdm base entries regions s h found fit j lt =
    let total = page_count entries in
    let start = first_bitmap-IsBytes memory hhdm (bitmap_size total) (some base) h in
    let freed = free_regions-Freed regions (placed memory hhdm total (some base)) start fit in
    let full = placed-used memory hhdm total base j (page_count-le entries) lt in
    rw found (ground (arith, freed.now_free j, full))
