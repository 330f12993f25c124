-- ===== src/Mm/Pmm/Init/Regions.antt =====
-- Which pages `pmm_init` frees.
use chef_os.Prelude.{
  ℕ, ◌++◌, ap, ◌-◌, ◌+◌, ◌*◌, ◌/◌, ◌%◌, ◌^◌, ◌≤◌, ◌<◌, ◌≡◌, refl, Bool, true, false, not, ◌&&◌,
  ◌||◌, leb, ltb, List, [], ◌∷◌, some, arith, u64, ◌∙◌,
}
use chef_os.Mm.Bitmap.{IsBytes}
use chef_os.Mm.Pmm.{Pmm, page_size}
use chef_os.Mm.Pmm.Count.{used}
use chef_os.Mm.Pmm.Init.{
  MemmapEntry, page_round_up, cut_bitmap, usable, place_bitmap, bitmap_size, page_count, init,
}
use chef_os.Mm.Pmm.Init.Freeing.{covers, covered, Fits, AllFit, init-regions}

-- No region of the list is usable and has room for the bitmap.
abbrev pub AllMiss : (size : ℕ) → List MemmapEntry → Type 0
AllMiss size [] = Unit
AllMiss size (e ∷ es) = ((usable e && leb size e.length) ≡ false) × AllMiss size es

-- The bitmap goes to the first region with room.
place_bitmap-first :
    (size : ℕ) (before after : List MemmapEntry) (e : MemmapEntry)
    → AllMiss size before
    → (usable e && leb size e.length) ≡ true
    → place_bitmap size (before ++ e ∷ after) ≡ (some e.base, before ++ cut_bitmap size e ∷ after)
unfolding place_bitmap
place_bitmap-first size [] after e miss room = rw room refl
place_bitmap-first size (b ∷ before) after e miss room =
    let rest = place_bitmap-first size before after e miss.1 room in rw (miss.0, rest) refl

covered-append :
    (es fs : List MemmapEntry) (j : ℕ) → covered (es ++ fs) j ≡ (covered es j || covered fs j)
unfolding covered
covered-append [] fs j = refl
covered-append (e ∷ es) fs j = ground (arith, covered-append es fs j)

AllFit-append : (es fs : List MemmapEntry) → AllFit es → AllFit fs → AllFit (es ++ fs)
AllFit-append [] fs p q = q
AllFit-append (e ∷ es) fs p q = (p.0, AllFit-append es fs p.1 q)

-- The bytes of the whole pages that `size` bytes take.
abbrev pub rounded : (size : ℕ) → ℕ
rounded size = (size + (page_size - 1)) / page_size * page_size

-- Page `j` starts in what the cut leaves of a region: from behind the whole pages of the bitmap on, as
-- many bytes as the region had more than the bitmap.
abbrev pub left_of : (size : ℕ) → MemmapEntry → ℕ → Bool
left_of size e j =
    leb ((e.base + rounded size) / page_size) j
    && ltb (j * page_size) (e.base + rounded size + (e.length - size))

cut_lem :
    (size : ℕ) (e : MemmapEntry)
    → (usable e && leb size e.length) ≡ true
    → e.base % page_size ≡ 0
    → e.base + e.length + 2 * page_size ≤ 2 ^ 64
    → Fits (cut_bitmap size e) × ((j : ℕ) → covers (cut_bitmap size e) j ≡ left_of size e j)
cut_lem size e room al high =
    let fits : size ≤ e.length = ground (arith, room) in
    let is_usable : usable e ≡ true = ground (arith, room) in
    let at : page_round_up size ≡ rounded size = omega arith in
    let moved : u64 (e.base + page_round_up size) ≡ e.base + rounded size = omega arith in
    rw (moved, is_usable) ((omega arith, omega arith), λ j. refl)

-- For a memory map of `before`, `e` and `after`, where `e` is the first usable region with room for the
-- bitmap, regions start at a page, and all end a page or more below 2^64, `e` two: after `pmm_init` the free
-- pages are exactly those that start in a usable region of `before` or `after`, or in what is left of
-- `e` behind the whole pages of the bitmap, which is as many bytes as `e` had more than the bitmap.
pub init-covered :
    (memory : ℕ → ℕ) (hhdm : ℕ) (before after : List MemmapEntry) (e : MemmapEntry) (s : Pmm)
    → IsBytes memory
    → AllMiss (bitmap_size (page_count (before ++ e ∷ after))) before
    → (usable e && leb (bitmap_size (page_count (before ++ e ∷ after))) e.length) ≡ true
    → AllFit before
    → AllFit after
    → e.base % page_size ≡ 0
    → e.base + e.length + 2 * page_size ≤ 2 ^ 64
    → (j : ℕ) → j < page_count (before ++ e ∷ after)
    → used (init memory hhdm (some (before ++ e ∷ after)) s) j
      ≡ not (
          covered before j
          || (left_of (bitmap_size (page_count (before ++ e ∷ after))) e j || covered after j))
unfolding covered
init-covered memory hhdm before after e s h miss room fit fit2 al high j lt =
    let size = bitmap_size (page_count (before ++ e ∷ after)) in
    let (cut_fit, cut) = cut_lem size e room al high in
    init-regions memory hhdm e.base (before ++ e ∷ after) (before ++ cut_bitmap size e ∷ after) s h
      (place_bitmap-first size before after e miss room)
      (AllFit-append before (cut_bitmap size e ∷ after) fit (cut_fit, fit2)) j lt
    ∙ ap not (
        covered-append before (cut_bitmap size e ∷ after) j
        ∙ ap (λ b. covered before j || (b || covered after j)) (cut j))
