-- ===== src/Mm/Heap/Tiling.antt =====
-- The blocks of the heap lie end to end, and the bytes in use are those of the blocks not free.
use chef_os.Prelude.{
  ℕ, ◌+◌, ◌^◌, ◌≤◌, ◌<◌, ◌≡◌, refl, Bool, false, not, ◌&&◌, ◌||◌, leb, ltb, [], ◌∷◌, arith,
}
use chef_os.Mm.Heap.{HeapBlock, Heap, header}

-- The blocks fill the addresses from `start` to `end`, each header right behind the block before.
abbrev pub Tiles : ℕ → Heap → ℕ → Type 0
Tiles start [] end = start ≡ end
Tiles start (b ∷ bs) end = (b.addr ≡ start) × Tiles (start + header + b.size) bs end

abbrev pub within : ℕ → ℕ → ℕ → Bool
within p len x = leb p x && ltb x (p + len)

abbrev pub holds : HeapBlock → ℕ → Bool
holds b x = not b.is_free && within (b.addr + header) b.size x

-- Address `x` belongs to a block that is not free.
unfoldable pub in_use : Heap → ℕ → Bool
in_use [] x = false
in_use (b ∷ bs) x = holds b x || in_use bs x

-- The heap lies between `start` and `end`, above the first page and below 2 ^ 64.
pub record IsTiled (start end : ℕ) (h : Heap) : Type 0 where
  pub tiles : Tiles start h end
  pub low : 4096 ≤ start
  pub high : end < 2 ^ 64

pub Tiles-le : (h : Heap) (start end : ℕ) → Tiles start h end → start ≤ end
Tiles-le [] start end t = omega arith
Tiles-le (b ∷ bs) start end t = omega (arith, Tiles-le bs (start + header + b.size) end t.1)

-- No address below the first payload is in use.
pub in_use_below :
    (h : Heap) (start end x : ℕ) → Tiles start h end → x < start + header → in_use h x ≡ false
unfolding in_use
in_use_below [] start end x t lt = refl
in_use_below (b ∷ bs) start end x t lt =
    ground (arith, in_use_below bs (start + header + b.size) end x)
