-- ===== src/Mm/Heap/Release.antt =====
-- `kfree` gives a block back.
use chef_os.Prelude.{
  ℕ, ◌+◌, ◌-◌, ◌^◌, ◌≤◌, ◌<◌, ◌≡◌, true, false, not, ◌&&◌, ◌==◌, [], ◌∷◌, arith, Bool-cases, inl,
  inr, Option, none, some, if◌then◌else◌, sub64,
}
use chef_os.Mm.Heap.{Heap, header, set_free, merge, kfree}
use chef_os.Mm.Heap.Tiling.{Tiles, Tiles-le, within, in_use, in_use_below, IsTiled}
use chef_os.Mm.Heap.Merged.{Merged, merge_from-Merged, merge_from-Tiles, in_use-merge_from}

-- The size of the block in use whose payload starts at `p`.
unfoldable pub live : Heap → ℕ → Option ℕ
live [] p = none
live (b ∷ bs) p = if not b.is_free && (b.addr + header == p) then some b.size else live bs p

live_bounds :
    (h : Heap) (start end p len : ℕ)
    → Tiles start h end
    → live h p ≡ some len
    → (start + header ≤ p) × (p + len ≤ end)
unfolding live
live_bounds [] start end p len t e = ground arith
live_bounds (b ∷ bs) start end p len t e =
    elim (Bool-cases (not b.is_free && (b.addr + header == p))) [
      | inl hit ↦ ground (arith, Tiles-le bs (start + header + b.size) end)
      | inr miss ↦ ground (arith, live_bounds bs (start + header + b.size) end p len)
    ]

-- The outcome of marking the block at `p` free.
record Marked (start end : ℕ) (h g : Heap) (p len : ℕ) : Type 0 where
  tiles : Tiles start g end
  now_used : (x : ℕ) → in_use g x ≡ (not (within p len x) && in_use h x)

set_free_lem :
    (h : Heap) (start end p len : ℕ)
    → end < 2 ^ 64
    → Tiles start h end
    → live h p ≡ some len
    → (g : Heap) × (set_free (p - header) h ≡ some g) × Marked start end h g p len
unfolding set_free live in_use
set_free_lem [] start end p len high t e = ground arith
set_free_lem (b ∷ bs) start end p len high t e =
    elim (Bool-cases (not b.is_free && (b.addr + header == p))) [
      | inl hit ↦ (
        record b { is_free = true } ∷ bs,
        ground arith,
        record {
          tiles = t;
          now_used = λ x. ground (arith, in_use_below bs (start + header + b.size) end x t.1);
        },
      )
      | inr miss ↦
          let deeper : live bs p ≡ some len = ground arith in
          let (g, found, m) = set_free_lem bs (start + header + b.size) end p len high t.1 deeper in
          let apart = live_bounds bs (start + header + b.size) end p len t.1 deeper in
          (
            b ∷ g,
            ground (arith, found, apart),
            record { tiles = (t.0, m.tiles); now_used = λ x. ground (arith, m.now_used x, apart) },
          )
    ]

-- What `kfree` leaves: the heap is still made of adjoining blocks, no two neighbours are free, and
-- the bytes in use are those before less the `len` bytes from `p` on.
pub record Given (start end : ℕ) (h g : Heap) (p len : ℕ) : Type 0 where
  pub tiled : IsTiled start end g
  pub merged : Merged g
  pub now_used : (x : ℕ) → in_use g x ≡ (not (within p len x) && in_use h x)

merge-Given :
    (start end : ℕ) (h g : Heap) (p len : ℕ)
    → 4096 ≤ start
    → end < 2 ^ 64
    → Marked start end h g p len
    → Given start end h (merge g) p len
unfolding merge
merge-Given start end h [] p len low high m = record {
  tiled = record { tiles = m.tiles; low = low; high = high };
  merged = tt;
  now_used = m.now_used;
}
merge-Given start end h (b ∷ bs) p len low high m = record {
  tiled = record { tiles = merge_from-Tiles b bs start end high m.tiles; low = low; high = high };
  merged = merge_from-Merged b bs;
  now_used = λ x. ground (arith, in_use-merge_from b bs x, m.now_used x);
}

-- On a pointer to a block in use `kfree` finds its header, takes exactly that block out of use,
-- and leaves no two neighbours free.
pub kfree_lem :
    (start end : ℕ) (h : Heap) (p len : ℕ)
    → IsTiled start end h
    → live h p ≡ some len
    → (g : Heap) × (kfree h p ≡ some g) × Given start end h g p len
unfolding kfree
kfree_lem start end h p len v e =
    let (g, found, m) = set_free_lem h start end p len v.high v.tiles e in
    let at = live_bounds h start end p len v.tiles e in
    let back : sub64 p header ≡ p - header = omega (arith, v.low, v.high) in
    let some_block : (p == 0) ≡ false = ground (arith, v.low) in
    (merge g, rw (some_block, back, found), merge-Given start end h g p len v.low v.high m)
