-- ===== src/Mm/Pmm/Run.antt =====
-- Which run of pages `pmm_alloc_pages` finds.
use chef_os.Prelude.{
  ℕ, zero, suc, ◌+◌, ◌-◌, ◌*◌, ◌≤◌, ◌<◌, ◌≡◌, refl, ◌⊎◌, inl, inr, Bool, true, false, ◌&&◌, ◌||◌,
  ◌==◌, ltb, leb, Bool-cases, arith, u64,
}
use chef_os.Mm.Bitmap.{Bitmap, IsBytes, bitmap_set, bitmap_test}
use chef_os.Mm.Bitmap.Bits.{bitmap_set-IsBytes, bitmap_test-bitmap_set}
use chef_os.Mm.Pmm.{Pmm, page_size, set_run, take_run, run_start, alloc_pages_loop, alloc_pages}
use chef_os.Mm.Pmm.Count.{used, count_free, count_free-le, count_free_take, IsValid}

-- Page `j` is one of the `n` pages from `from` on.
abbrev pub in_run : ℕ → ℕ → ℕ → Bool
in_run from n j = leb from j && ltb j (from + n)

pub set_run-IsBytes : (n from : ℕ) (bm : Bitmap) → IsBytes bm → IsBytes (set_run n from bm)
unfolding set_run
set_run-IsBytes zero from bm h = h
set_run-IsBytes (suc n) from bm h =
    set_run-IsBytes n (from + 1) (bitmap_set bm from) (bitmap_set-IsBytes from h)

pub bitmap_test-set_run :
    (n from : ℕ) (bm : Bitmap) (j : ℕ)
    → IsBytes bm
    → bitmap_test (set_run n from bm) j ≡ (in_run from n j || bitmap_test bm j)
unfolding set_run
bitmap_test-set_run zero from bm j h = ground arith
bitmap_test-set_run (suc n) from bm j h = ground (
  arith,
  bitmap_test-set_run n (from + 1) (bitmap_set bm from) j (bitmap_set-IsBytes from h),
  bitmap_test-bitmap_set from j h,
)

pub count_free-set_run :
    (n from total : ℕ) (bm : Bitmap)
    → IsBytes bm
    → from + n ≤ total
    → ((j : ℕ) → from ≤ j → j < from + n → bitmap_test bm j ≡ false)
    → count_free (bitmap_test (set_run n from bm)) total + n ≡ count_free (bitmap_test bm) total
unfolding set_run
count_free-set_run zero from total bm h fits free = omega arith
count_free-set_run (suc n) from total bm h fits free = omega (
  arith,
  count_free_take (bitmap_test bm) (bitmap_test (bitmap_set bm from)) from total (omega arith)
      (free from (omega arith) (omega arith)) (λ j. bitmap_test-bitmap_set from j h),
  count_free-set_run n (from + 1) total (bitmap_set bm from) (bitmap_set-IsBytes from h)
      (omega arith) (λ j p q. ground (arith, bitmap_test-bitmap_set {bm = bm} from j h, free j)),
)

-- Some of the `count` pages from `start` on is in use.
abbrev pub Blocked : Pmm → ℕ → ℕ → Type 0
Blocked s count start = (j : ℕ) × (start ≤ j) × (j < start + count) × (used s j ≡ true)

-- The outcome that took the `count` pages from `start` on: all were free, and no run of that
-- length starts lower. No other page changed.
pub record TookRun (s : Pmm) (count : ℕ) (out : ℕ × Pmm) (start : ℕ) : Type 0 where
  pub in_range : start + count ≤ s.total_pages
  pub were_free : (j : ℕ) → start ≤ j → j < start + count → used s j ≡ false
  pub lowest : (lower : ℕ) → lower < start → Blocked s count lower
  pub pointer : out.0 ≡ start * page_size
  pub now_used : (j : ℕ) → used out.1 j ≡ (in_run start count j || used s j)
  pub valid : IsValid out.1
  pub fewer : out.1.free_pages + count ≡ s.free_pages
  pub same_total : out.1.total_pages ≡ s.total_pages

-- The outcome where no run is long enough.
pub record NoRun (s : Pmm) (count : ℕ) (out : ℕ × Pmm) : Type 0 where
  pub blocked : (start : ℕ) → start + count ≤ s.total_pages → Blocked s count start
  pub unchanged : out ≡ (0, s)

-- What the loop knows at page `i`: the last `run` pages are free and the one before them is not,
-- and no run of `count` pages ends at `i` or below.
record Scanned (s : Pmm) (count i run start : ℕ) : Type 0 where
  short : run < count
  within : run ≤ i
  started : (run ≡ 0) ⊎ (start + run ≡ i)
  free_run : (j : ℕ) → i ≤ j + run → j < i → used s j ≡ false
  before : (run ≡ i) ⊎ (used s (i - run - 1) ≡ true)
  blocked : (lower : ℕ) → lower + count ≤ i → Blocked s count lower

module _ (s : Pmm) (v : IsValid s) (count : ℕ) (pos : 0 < count) where
  Scanned-used :
      (i run start : ℕ)
      → Scanned s count i run start
      → used s i ≡ true
      → Scanned s count (i + 1) 0 start
  Scanned-used i run start sc busy = record {
    short = pos;
    within = omega arith;
    started = inl refl;
    free_run = λ j p q. absurd (omega arith);
    before = let here : i + 1 - 0 - 1 ≡ i = omega arith in inr (rw here busy);
    blocked = λ lower p. elim (Bool-cases (leb (lower + count) i)) [
      | inl old ↦ sc.blocked lower (ground arith)
      | inr new ↦ (i, ground arith, ground arith, busy)
    ];
  }

  run_start-add :
      (i run start : ℕ) (sc : Scanned s count i run start) → run_start i run start + run ≡ i
  run_start-add i run start sc = ground (arith, sc.started)

  Blocked-before :
      (i run start lower : ℕ)
      → Scanned s count i run start
      → lower < i - run
      → lower + count ≤ i + 1
      → Blocked s count lower
  Blocked-before i run start lower sc less fits = elim sc.before [
    | inl e ↦ absurd (omega arith)
    | inr busy ↦ elim (Bool-cases (leb (lower + count) i)) [
      | inl old ↦ sc.blocked lower (ground arith)
      | inr new ↦ (i - run - 1, omega arith, ground (arith, sc.short), busy)
    ]
  ]

  Scanned-free :
      (i run start : ℕ) (sc : Scanned s count i run start)
      → used s i ≡ false
      → run + 1 < count
      → Scanned s count (i + 1) (run + 1) (run_start i run start)
  Scanned-free i run start sc free short = record {
    short = short;
    within = omega (arith, sc.within);
    started = inr (omega (arith, run_start-add i run start sc));
    free_run = λ j p q. elim (Bool-cases (j == i)) [
      | inl last ↦ ground (arith, free)
      | inr old ↦ sc.free_run j (omega arith) (ground arith)
    ];
    before = elim sc.before [
      | inl e ↦ inl (omega arith)
      | inr busy ↦
          let same : i + 1 - (run + 1) - 1 ≡ i - run - 1 = omega arith in inr (rw same busy)
    ];
    blocked = λ lower p. Blocked-before i run start lower sc (omega (arith, sc.within)) p;
  }

  TookRun-take_run :
      (i run start : ℕ) (sc : Scanned s count i run start)
      → used s i ≡ false
      → run + 1 ≡ count
      → i < s.total_pages
      → let from = run_start i run start in
        TookRun s count (u64 (from * page_size), take_run count from s) from
  TookRun-take_run i run start sc free full lt =
      let from = run_start i run start in
      let at : from + run ≡ i = run_start-add i run start sc in
      let all_free = free_between from at in
      let set = λ (j : ℕ). bitmap_test-set_run count from s.bitmap j v.bytes in
      let counted =
        count_free-set_run count from s.total_pages s.bitmap v.bytes (omega arith) all_free in
      let most = count_free-le (used s) s.total_pages in
      record {
        in_range = omega arith;
        were_free = all_free;
        lowest = λ lower p. Blocked-before i run start lower sc (omega arith) (omega arith);
        pointer = omega (arith, v.small);
        now_used = set;
        valid = record {
          bytes = set_run-IsBytes count from s.bitmap v.bytes;
          small = v.small;
          counted = omega (arith, v.counted, v.small);
        };
        fewer = omega (arith, v.counted, v.small);
        same_total = refl;
      }
    where
      free_between :
          (from : ℕ) → from + run ≡ i → (j : ℕ) → from ≤ j → j < from + count → used s j ≡ false
      free_between from at j p q = elim (Bool-cases (j == i)) [
        | inl last ↦ ground (arith, free)
        | inr old ↦ sc.free_run j (omega arith) (ground arith)
      ]

  alloc_pages_loop_lem :
      (left i run start : ℕ)
      → i + left ≡ s.total_pages
      → Scanned s count i run start
      → let out = alloc_pages_loop count left i run start s in
        ((k : ℕ) × TookRun s count out k) ⊎ NoRun s count out
  unfolding alloc_pages_loop
  alloc_pages_loop_lem zero i run start e sc =
      inr (record { blocked = λ k p. sc.blocked k (omega arith); unchanged = refl })
  alloc_pages_loop_lem (suc left) i run start e sc = elim (Bool-cases (used s i)) [
    | inl busy ↦
        rw busy (
          alloc_pages_loop_lem left (i + 1) 0 start (omega arith)
            (Scanned-used i run start sc busy))
    | inr free ↦
        rw (free, no_wrap)
          (elim (Bool-cases (run + 1 == count)) [
            | inl full ↦ rw full (
                inl (
                  run_start i run start,
                  TookRun-take_run i run start sc free (ground arith) (omega arith),
                ))
            | inr more ↦ rw more (
                alloc_pages_loop_lem left (i + 1) (run + 1) (run_start i run start) (omega arith)
                  (Scanned-free i run start sc free (ground (arith, sc.short))))
          ])
  ]
    where
      no_wrap : u64 (run + 1) ≡ run + 1
      no_wrap = omega (arith, sc.within, v.small)

-- In a valid state `pmm_alloc_pages` takes the lowest run of `count` free pages and returns its
-- address, every other page keeps its state and the count falls by `count`; or every run of that
-- length has a page in use, and it returns 0 and changes nothing.
pub alloc_pages_lem :
    (s : Pmm) (count : ℕ)
    → IsValid s
    → 0 < count
    → ((k : ℕ) × TookRun s count (alloc_pages s count) k) ⊎ NoRun s count (alloc_pages s count)
unfolding alloc_pages
alloc_pages_lem s count v pos =
    alloc_pages_loop_lem s v count pos s.total_pages 0 0 0 (omega arith) (record {
      short = pos;
      within = omega arith;
      started = inl refl;
      free_run = λ j p q. absurd (omega arith);
      before = inl refl;
      blocked = λ lower p. absurd (omega arith);
    })
