-- ===== src/Mm/Pmm/Free.antt =====
-- `pmm_free_page` and `pmm_free_pages`.
use chef_os.Prelude.{
  ℕ, zero, suc, ◌+◌, ◌/◌, ◌≤◌, ◌<◌, ◌≡◌, ◌≢◌, refl, inl, inr, Bool, ◌&&◌, not, ◌==◌, ltb, ltb→lt,
  ◌∙◌, ap, sym, Bool-cases, arith, u64,
}
use chef_os.Mm.Bitmap.{bitmap_clear, bitmap_test}
use chef_os.Mm.Bitmap.Bits.{bitmap_clear-IsBytes, bitmap_test-bitmap_clear}
use chef_os.Mm.Pmm.{Pmm, page_size, release, free_page, free_run, free_pages, alloc_pages}
use chef_os.Mm.Pmm.Count.{
  used, count_free, count_free_same, count_free-le, count_free_take, IsValid,
}
use chef_os.Mm.Pmm.Run.{in_run, TookRun, alloc_pages_lem}

-- `t` is `s` with the pages of `gone` freed and no other page changed.
pub record Released (s t : Pmm) (gone : ℕ → Bool) : Type 0 where
  pub now_free : (j : ℕ) → used t j ≡ (not (gone j) && used s j)
  pub valid : IsValid t
  pub same_total : t.total_pages ≡ s.total_pages

release-Released :
    (s : Pmm) (page : ℕ)
    → IsValid s
    → page < s.total_pages
    → Released s (release page s) (λ j. page == j)
release-Released s page v lt = elim (Bool-cases (used s page)) [
  | inl busy ↦
      let cleared = λ (j : ℕ). bitmap_test-bitmap_clear {bm = s.bitmap} page j v.bytes in
      let more : count_free (used s) s.total_pages + 1
          ≡ count_free (bitmap_test (bitmap_clear s.bitmap page)) s.total_pages =
        count_free_take (bitmap_test (bitmap_clear s.bitmap page)) (used s) page s.total_pages lt
          (ground (arith, cleared page)) (λ j. ground (arith, cleared j)) in
      let most = count_free-le (used s) s.total_pages in
      rw busy (record {
        now_free = λ j. ground (arith, cleared j);
        valid = record {
          bytes = bitmap_clear-IsBytes page v.bytes;
          small = v.small;
          counted = omega (arith, v.counted, v.small);
        };
        same_total = refl;
      })
  | inr idle ↦ rw idle (record { now_free = λ j. ground arith; valid = v; same_total = refl })
]

-- `pmm_free_page` frees the page that the pointer lies in, if that page exists and is in use, and
-- changes no other page; the invariant is kept, so the count follows.
pub free_page_lem :
    (s : Pmm) (ptr : ℕ)
    → IsValid s
    → Released s (free_page s ptr) (λ j. (ptr / page_size == j) && ltb j s.total_pages)
unfolding free_page
free_page_lem s ptr v = elim (Bool-cases (ltb (ptr / page_size) s.total_pages)) [
  | inl inside ↦
      let r = release-Released s (ptr / page_size) v (ltb→lt _ _ inside) in
      rw inside (record {
        now_free = λ j. ground (arith, r.now_free j);
        valid = r.valid;
        same_total = r.same_total;
      })
  | inr outside ↦ rw outside (record { now_free = λ j. ground arith; valid = v; same_total = refl })
]

free_run_lem :
    (n page : ℕ) (s : Pmm)
    → IsValid s
    → page + n ≤ s.total_pages
    → Released s (free_run n page s) (in_run page n)
unfolding free_run
free_run_lem zero page s v fits = record {
  now_free = λ j. ground arith;
  valid = v;
  same_total = refl;
}
free_run_lem (suc n) page s v fits =
    let first = release-Released s page v (omega arith) in
    let next : u64 (page + 1) ≡ page + 1 = omega (arith, v.small) in
    let rest =
      free_run_lem n (page + 1) (release page s) first.valid (omega (arith, first.same_total)) in
    rw next (record {
      now_free = λ j. ground (arith, first.now_free j, rest.now_free j);
      valid = rest.valid;
      same_total = rest.same_total ∙ first.same_total;
    })

-- On a run of pages that exist `pmm_free_pages` frees those in use, and changes no other page; the
-- invariant is kept.
pub free_pages_lem :
    (s : Pmm) (ptr count : ℕ)
    → IsValid s
    → ptr / page_size + count ≤ s.total_pages
    → Released s (free_pages s ptr count) (in_run (ptr / page_size) count)
unfolding free_pages
free_pages_lem s ptr count v fits = free_run_lem count (ptr / page_size) s v fits

restored_by_free :
    (s : Pmm) (count start : ℕ)
    → IsValid s
    → TookRun s count (alloc_pages s count) start
    → let t = free_pages (alloc_pages s count).1 (alloc_pages s count).0 count in
      ((j : ℕ) → used t j ≡ used s j) × (t.free_pages ≡ s.free_pages)
restored_by_free s count start v took = (same, counter)
  where
    out : ℕ × Pmm
    out = alloc_pages s count

    page : out.0 / page_size ≡ start
    page = rw took.pointer (omega arith)

    back : Released out.1 (free_pages out.1 out.0 count) (in_run (out.0 / page_size) count)
    back = free_pages_lem out.1 out.0 count took.valid (rw (page, took.same_total) took.in_range)

    now_free :
        (j : ℕ)
        → used (free_pages out.1 out.0 count) j ≡ (not (in_run start count j) && used out.1 j)
    now_free j = rw page at (back.now_free j)

    same : (j : ℕ) → used (free_pages out.1 out.0 count) j ≡ used s j
    same j = ground (arith, now_free j, took.now_used j, took.were_free j)

    counter : (free_pages out.1 out.0 count).free_pages ≡ s.free_pages
    counter =
        back.valid.counted
        ∙ ap (count_free (used (free_pages out.1 out.0 count))) (back.same_total ∙ took.same_total)
        ∙ count_free_same (used (free_pages out.1 out.0 count)) (used s) s.total_pages
            (λ j p. same j)
        ∙ sym v.counted

-- In a valid state, whose counter is the number of free pages: freeing what `pmm_alloc_pages` of one page
-- or more returned, if that was not null, gives every page the state that it had, and the counter its
-- value.
pub free_pages-alloc_pages :
    (s : Pmm) (count : ℕ)
    → IsValid s
    → 0 < count
    → (alloc_pages s count).0 ≢ 0
    → ((j : ℕ)
        → used (free_pages (alloc_pages s count).1 (alloc_pages s count).0 count) j ≡ used s j)
      × ((free_pages (alloc_pages s count).1 (alloc_pages s count).0 count).free_pages
          ≡ s.free_pages)
free_pages-alloc_pages s count v pos got = elim (alloc_pages_lem s count v pos) [
  | inl (start, took) ↦ restored_by_free s count start v took
  | inr full ↦ absurd (got (ap (λ out. out.0) full.unchanged))
]
