-- ===== src/Mm/Heap/Alloc.antt =====
-- Which memory `kmalloc` returns.
use chef_os.Prelude.{
  ℕ, ◌+◌, ◌-◌, ◌^◌, ◌≤◌, ◌<◌, ◌≡◌, refl, ◌⊎◌, inl, inr, Bool, true, false, not, ◌&&◌, ◌||◌, leb, [],
  ◌∷◌, arith, Bool-cases,
}
use chef_os.Mm.Heap.{
  HeapBlock, Heap, header, fits, taken, split_front, payload, align8, kmalloc_walk, kmalloc,
}
use chef_os.Mm.Heap.Tiling.{Tiles, Tiles-le, within, in_use, in_use_below, IsTiled}

-- The outcome that handed out the `len` bytes from `out.0` on: at least `n`, inside the heap, and
-- of no block in use before. The bytes in use are those before and these.
pub record Got (start end n : ℕ) (h : Heap) (out : ℕ × Heap) (len : ℕ) : Type 0 where
  pub above : start + header ≤ out.0
  pub below : out.0 + len ≤ end
  pub enough : n ≤ len
  pub was_free : (x : ℕ) → within out.0 len x ≡ true → in_use h x ≡ false
  pub now_used : (x : ℕ) → in_use out.1 x ≡ (within out.0 len x || in_use h x)
  pub tiles : Tiles start out.1 end

-- No free block holds `n` bytes.
unfoldable pub none_fits : ℕ → Heap → Bool
none_fits n [] = true
none_fits n (b ∷ bs) = not (fits n b) && none_fits n bs

pub record Refused (n : ℕ) (h : Heap) (out : ℕ × Heap) : Type 0 where
  pub no_block : none_fits n h ≡ true
  pub unchanged : out ≡ (0, h)

-- The free block behind a split, with its numbers not cut to a word.
abbrev pub rest_block : ℕ → HeapBlock → HeapBlock
rest_block n b = record { addr = b.addr + header + n; size = b.size - n - header; is_free = true }

module _ (start end n : ℕ) (b : HeapBlock) (bs : Heap) (high : end < 2 ^ 64) (low : 4096 ≤ start)
    (t : Tiles start (b ∷ bs) end) (fit : fits n b ≡ true) where
  payload-add : payload b ≡ start + header
  payload-add = omega (arith, Tiles-le bs (start + header + b.size) end t.1)

  pub taken_split : n + header + 32 ≤ b.size → taken n b bs ≡ split_front n b ∷ rest_block n b ∷ bs
  taken_split p = ground (arith, Tiles-le bs (start + header + b.size) end t.1)

  pub taken_whole : b.size < n + header + 32 → taken n b bs ≡ record b { is_free = false } ∷ bs
  taken_whole p = ground (arith, Tiles-le bs (start + header + b.size) end t.1)

  Got-split : n + header + 32 ≤ b.size → Got start end n (b ∷ bs) (payload b, taken n b bs) n
  unfolding in_use
  Got-split p =
      rw (payload-add, taken_split p)
        (record {
          above = omega arith;
          below = omega (arith, Tiles-le bs (start + header + b.size) end t.1);
          enough = omega arith;
          was_free = λ x h. ground (arith, in_use_below bs (start + header + b.size) end x t.1);
          now_used = λ x. ground arith;
          tiles = ground arith;
        })

  Got-whole : b.size < n + header + 32 → Got start end n (b ∷ bs) (payload b, taken n b bs) b.size
  unfolding in_use
  Got-whole p =
      rw (payload-add, taken_whole p)
        (record {
          above = omega arith;
          below = omega (arith, Tiles-le bs (start + header + b.size) end t.1);
          enough = ground arith;
          was_free = λ x h. ground (arith, in_use_below bs (start + header + b.size) end x t.1);
          now_used = λ x. ground arith;
          tiles = t;
        })

  Got-taken : (len : ℕ) × Got start end n (b ∷ bs) (payload b, taken n b bs) len
  Got-taken = elim (Bool-cases (leb (n + header + 32) b.size)) [
    | inl split ↦ (n, Got-split (ground arith))
    | inr whole ↦ (b.size, Got-whole (ground arith))
  ]

-- A block that the walk passes by.
Got-cons :
    (start end n len : ℕ) (b : HeapBlock) (bs : Heap) (out : ℕ × Heap)
    → Tiles start (b ∷ bs) end
    → Got (start + header + b.size) end n bs out len
    → Got start end n (b ∷ bs) (out.0, b ∷ out.1) len
unfolding in_use
Got-cons start end n len b bs out t g = record {
  above = omega (arith, g.above);
  below = g.below;
  enough = g.enough;
  was_free = λ x h. ground (arith, g.was_free x, g.above);
  now_used = λ x. ground (arith, g.now_used x);
  tiles = (t.0, g.tiles);
}

kmalloc_walk_lem :
    (n : ℕ) (h : Heap) (start end : ℕ)
    → end < 2 ^ 64
    → 4096 ≤ start
    → Tiles start h end
    → ((len : ℕ) × Got start end n h (kmalloc_walk n h) len) ⊎ Refused n h (kmalloc_walk n h)
unfolding kmalloc_walk none_fits
kmalloc_walk_lem n [] start end high low t = inr (record { no_block = refl; unchanged = refl })
kmalloc_walk_lem n (b ∷ bs) start end high low t = elim (Bool-cases (fits n b)) [
  | inl fit ↦ rw fit (inl (Got-taken start end n b bs high low t fit))
  | inr miss ↦
      rw miss (elim (kmalloc_walk_lem n bs (start + header + b.size) end high (omega arith) t.1) [
        | inl (len, g) ↦ inl (len, Got-cons start end n len b bs (kmalloc_walk n bs) t g)
        | inr r ↦ inr (record {
          no_block = ground (arith, r.no_block);
          unchanged = ground (arith, r.unchanged);
        })
      ])
]

-- For a size below 2^64 - 7, on a heap of adjoining blocks between the first page and 2^64, `kmalloc`
-- either hands out at least `size` bytes inside the heap that no block in use holds, after which exactly these bytes are in use besides those before; or
-- no free block holds the rounded size, and it returns 0 and changes nothing.
pub kmalloc_lem :
    (start end : ℕ) (h : Heap) (size : ℕ)
    → IsTiled start end h
    → size + 7 < 2 ^ 64
    → ((len : ℕ) × (size ≤ len) × Got start end (align8 size) h (kmalloc h size) len)
      ⊎ Refused (align8 size) h (kmalloc h size)
unfolding kmalloc
kmalloc_lem start end h size v small =
    elim (kmalloc_walk_lem (align8 size) h start end v.high v.low v.tiles) [
      | inl (len, g) ↦ inl (len, omega (arith, g.enough), g)
      | inr r ↦ inr r
    ]
