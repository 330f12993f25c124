-- ===== src/Mm/Pmm/Single.antt =====
-- Which page `pmm_alloc_page` finds.
use chef_os.Prelude.{
  ℕ, zero, suc, ◌+◌, ◌*◌, ◌≤◌, ◌<◌, ◌≡◌, refl, ◌⊎◌, inl, inr, true, false, ◌==◌, if◌then◌else◌,
  Bool-cases, arith, u64,
}
use chef_os.Mm.Bitmap.Bits.{bitmap_set-IsBytes, bitmap_test-bitmap_set}
use chef_os.Mm.Pmm.{Pmm, page_size, take_page, alloc_page_loop, alloc_page}
use chef_os.Mm.Pmm.Count.{used, count_free-le, count_free_take, IsValid}

-- The outcome that took page `k`: the lowest free one at `i` or above. No other page changed.
pub record Took (s : Pmm) (i : ℕ) (out : ℕ × Pmm) (k : ℕ) : Type 0 where
  pub from : i ≤ k
  pub in_range : k < s.total_pages
  pub was_free : used s k ≡ false
  pub lowest : (j : ℕ) → i ≤ j → j < k → used s j ≡ true
  pub pointer : out.0 ≡ k * page_size
  pub now_used : (j : ℕ) → used out.1 j ≡ (if k == j then true else used s j)
  pub valid : IsValid out.1
  pub one_less : out.1.free_pages + 1 ≡ s.free_pages
  pub same_total : out.1.total_pages ≡ s.total_pages

-- The outcome where no page at `i` or above is free.
pub record Exhausted (s : Pmm) (i : ℕ) (out : ℕ × Pmm) : Type 0 where
  pub all_used : (j : ℕ) → i ≤ j → j < s.total_pages → used s j ≡ true
  pub unchanged : out ≡ (0, s)

Took-take_page :
    (s : Pmm) (i : ℕ)
    → IsValid s
    → i < s.total_pages
    → used s i ≡ false
    → Took s i (u64 (i * page_size), take_page i s) i
Took-take_page s i v lt free =
    let set = λ (j : ℕ). bitmap_test-bitmap_set {bm = s.bitmap} i j v.bytes in
    let one = count_free_take (used s) (used (take_page i s)) i s.total_pages lt free set in
    let most = count_free-le (used s) s.total_pages in
    let less : (take_page i s).free_pages + 1 ≡ s.free_pages = omega (arith, v.counted) in
    record {
      from = omega arith;
      in_range = lt;
      was_free = free;
      lowest = λ j p q. absurd (omega arith);
      pointer = omega (arith, v.small);
      now_used = set;
      valid = record {
        bytes = bitmap_set-IsBytes i v.bytes;
        small = v.small;
        counted = omega (arith, v.counted);
      };
      one_less = less;
      same_total = refl;
    }

alloc_page_loop_lem :
    (left i : ℕ) (s : Pmm)
    → IsValid s
    → i + left ≡ s.total_pages
    → ((k : ℕ) × Took s i (alloc_page_loop left i s) k) ⊎ Exhausted s i (alloc_page_loop left i s)
unfolding alloc_page_loop
alloc_page_loop_lem zero i s v e =
    inr (record { all_used = λ j p q. absurd (omega arith); unchanged = refl })
alloc_page_loop_lem (suc left) i s v e = elim (Bool-cases (used s i)) [
  | inl busy ↦ rw busy (later busy (alloc_page_loop_lem left (i + 1) s v (omega arith)))
  | inr free ↦ rw free (inl (i, Took-take_page s i v (omega arith) free))
]
  where
    later :
        {out : ℕ × Pmm}
        → used s i ≡ true
        → ((k : ℕ) × Took s (i + 1) out k) ⊎ Exhausted s (i + 1) out
        → ((k : ℕ) × Took s i out k) ⊎ Exhausted s i out
    later busy (inl (k, t)) = inl (
      k,
      record {
        from = omega (arith, t.from);
        in_range = t.in_range;
        was_free = t.was_free;
        lowest = λ j p q. ground (arith, busy, t.lowest j);
        pointer = t.pointer;
        now_used = t.now_used;
        valid = t.valid;
        one_less = t.one_less;
        same_total = t.same_total;
      },
    )
    later busy (inr x) =
        inr (record {
          all_used = λ j p q. ground (arith, busy, x.all_used j);
          unchanged = x.unchanged;
        })

-- In a valid state `pmm_alloc_page` takes the lowest free page and returns its address, every other
-- page keeps its state and the count falls by one; or no page is free, and it returns 0 and
-- changes nothing.
pub alloc_page_lem :
    (s : Pmm) → IsValid s → ((k : ℕ) × Took s 0 (alloc_page s) k) ⊎ Exhausted s 0 (alloc_page s)
unfolding alloc_page
alloc_page_lem s v = alloc_page_loop_lem s.total_pages 0 s v (omega arith)
