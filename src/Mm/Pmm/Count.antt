-- ===== src/Mm/Pmm/Count.antt =====
-- The pages that are free, and the invariant that `s_free_pages` counts them.
use chef_os.Prelude.{
  ℕ, zero, suc, ◌+◌, ◌^◌, ◌≤◌, ◌<◌, ◌≡◌, refl, Bool, true, false, ◌==◌, if◌then◌else◌, arith,
  Bool-cases, inl, inr,
}
use chef_os.Mm.Bitmap.{IsBytes, bitmap_test}
use chef_os.Mm.Pmm.{Pmm}

-- Whether a page is in use.
abbrev pub used : Pmm → ℕ → Bool
used s page = bitmap_test s.bitmap page

-- How many of the first `n` pages are free.
unfoldable pub count_free : (ℕ → Bool) → ℕ → ℕ
count_free used zero = 0
count_free used (suc n) = (if used n then 0 else 1) + count_free used n

pub count_free-le : (f : ℕ → Bool) (n : ℕ) → count_free f n ≤ n
unfolding count_free
count_free-le f zero = omega arith
count_free-le f (suc n) = ground (arith, count_free-le f n)

-- Functions that agree below `n` have the same count.
pub count_free_same :
    (f g : ℕ → Bool) (n : ℕ) → ((j : ℕ) → j < n → f j ≡ g j) → count_free f n ≡ count_free g n
unfolding count_free
count_free_same f g zero h = refl
count_free_same f g (suc n) h =
    ground (arith, h n, count_free_same f g n (λ j p. h j (omega arith)))

-- Taking a free page lowers the count by one.
pub count_free_take :
    (f g : ℕ → Bool) (i n : ℕ)
    → i < n
    → f i ≡ false
    → ((j : ℕ) → g j ≡ (if i == j then true else f j))
    → count_free g n + 1 ≡ count_free f n
unfolding count_free
count_free_take f g i zero lt free h = absurd (omega arith)
count_free_take f g i (suc n) lt free h = elim (Bool-cases (i == n)) [
  | inl last ↦ ground (arith, h n, count_free_same f g n (λ j p. ground (arith, h j)))
  | inr earlier ↦ ground (arith, h n, count_free_take f g i n (ground arith) free h)
]

pub count_free_none : (f : ℕ → Bool) (n : ℕ) → ((j : ℕ) → j < n → f j ≡ true) → count_free f n ≡ 0
unfolding count_free
count_free_none f zero h = refl
count_free_none f (suc n) h = ground (arith, h n, count_free_none f n (λ j p. h j (omega arith)))

-- What the allocator keeps true: the bitmap is made of bytes, page addresses fit 64 bits, and
-- `s_free_pages` is the number of free pages.
pub record IsValid (s : Pmm) : Type 0 where
  pub bytes : IsBytes s.bitmap
  pub small : s.total_pages ≤ 2 ^ 52
  pub counted : s.free_pages ≡ count_free (used s) s.total_pages
