-- ===== src/Mm/Heap/RoundTrip.antt =====
-- `kfree` of what `kmalloc` just returned.
use chef_os.Prelude.{
  ℕ, ◌+◌, ◌-◌, ◌^◌, ◌≤◌, ◌<◌, ◌≡◌, ◌≢◌, refl, true, false, ◌&&◌, ◌==◌, [], ◌∷◌, arith, Bool-cases,
  inl, inr, ap, some, leb, u64, sub64,
}
use chef_os.Mm.Heap.{
  HeapBlock, Heap, header, payload, fits, taken, align8, set_free, merge, merge_from, kmalloc_walk,
  kmalloc, kfree,
}
use chef_os.Mm.Heap.Tiling.{Tiles, Tiles-le, IsTiled}
use chef_os.Mm.Heap.Alloc.{taken_split, taken_whole, rest_block}
use chef_os.Mm.Heap.Merged.{head_free, Merged, merge_from_same}

-- Marking the block at `p` in `taken` free gives a heap that merges back into `h`, with a first
-- block that is as free as that of `h`.
record Undone (h taken : Heap) (p : ℕ) : Type 0 where
  first : HeapBlock
  behind : Heap
  found : set_free (p - header) taken ≡ some (first ∷ behind)
  same_head : first.is_free ≡ head_free h
  merges : merge_from first behind ≡ h

module _ (start end n : ℕ) (b : HeapBlock) (bs : Heap) (high : end < 2 ^ 64) (low : 4096 ≤ start)
    (t : Tiles start (b ∷ bs) end) (m : Merged (b ∷ bs)) where
  at_payload : payload b - header ≡ b.addr
  at_payload = omega (arith, Tiles-le bs (start + header + b.size) end t.1)

  Undone-split :
      fits n b ≡ true → n + header + 32 ≤ b.size → Undone (b ∷ bs) (taken n b bs) (payload b)
  unfolding set_free merge_from
  Undone-split fit p = rw (taken_split start end n b bs high low t fit p) (record {
    first = record b { size = n };
    behind = rest_block n b ∷ bs;
    found = ground (arith, at_payload);
    same_head = refl;
    merges = rw (both, merge_from) (rw whole (merge_from_same b bs m));
  })
    where
      both : (b.is_free && true) ≡ true
      both = ground arith

      whole : u64 (n + u64 (header + (b.size - n - header))) ≡ b.size
      whole = omega (arith, Tiles-le bs (start + header + b.size) end t.1)

  Undone-whole :
      fits n b ≡ true → b.size < n + header + 32 → Undone (b ∷ bs) (taken n b bs) (payload b)
  unfolding set_free
  Undone-whole fit p = rw (taken_whole start end n b bs high low t fit p) (record {
    first = b;
    behind = bs;
    found = ground (arith, at_payload);
    same_head = refl;
    merges = merge_from_same b bs m;
  })

  Undone-taken : fits n b ≡ true → Undone (b ∷ bs) (taken n b bs) (payload b)
  Undone-taken fit = elim (Bool-cases (leb (n + header + 32) b.size)) [
    | inl split ↦ Undone-split fit (ground arith)
    | inr whole ↦ Undone-whole fit (ground arith)
  ]

  payload_bounds : (start + header ≤ payload b) × (payload b < 2 ^ 64)
  payload_bounds = omega (arith, Tiles-le bs (start + header + b.size) end t.1)

-- A block that the walk passes by is not the one marked, and does not merge.
Undone-cons :
    (b : HeapBlock) (bs : Heap) (out : ℕ × Heap)
    → Merged (b ∷ bs)
    → b.addr + header < out.0
    → Undone bs out.1 out.0
    → Undone (b ∷ bs) (b ∷ out.1) out.0
unfolding set_free merge_from
Undone-cons b bs out m below u = record {
  first = b;
  behind = u.first ∷ u.behind;
  found = ground (arith, u.found);
  same_head = refl;
  merges = rw (apart, merge_from) (ap (λ cs. b ∷ cs) u.merges);
}
  where
    apart : (b.is_free && u.first.is_free) ≡ false
    apart = ground (arith, u.same_head, m.0)

kmalloc_walk-Undone :
    (n : ℕ) (h : Heap) (start end : ℕ)
    → end < 2 ^ 64
    → 4096 ≤ start
    → Tiles start h end
    → Merged h
    → (kmalloc_walk n h).0 ≢ 0
    → (start + header ≤ (kmalloc_walk n h).0)
      × ((kmalloc_walk n h).0 < 2 ^ 64)
      × Undone h (kmalloc_walk n h).1 (kmalloc_walk n h).0
unfolding kmalloc_walk
kmalloc_walk-Undone n [] start end high low t m ne = absurd (ne refl)
kmalloc_walk-Undone n (b ∷ bs) start end high low t m ne = elim (Bool-cases (fits n b)) [
  | inl fit ↦
      let bounds = payload_bounds start end n b bs high low t m in
      rw fit (bounds.0, bounds.1, Undone-taken start end n b bs high low t m fit)
  | inr miss ↦
      let deeper =
        kmalloc_walk-Undone n bs (start + header + b.size) end high (omega arith) t.1 m.1
          (rw miss at ne) in
      rw miss (
        omega (arith, deeper.0),
        deeper.1,
        Undone-cons b bs (kmalloc_walk n bs) m (omega (arith, deeper.0)) deeper.2,
      )
]

-- On a heap in which no two neighbours are free, freeing what `kmalloc` just returned gives back
-- the very heap from before: the split is undone and no other block changes.
pub kfree-kmalloc :
    (start end : ℕ) (h : Heap) (size : ℕ)
    → IsTiled start end h
    → Merged h
    → (kmalloc h size).0 ≢ 0
    → kfree (kmalloc h size).1 (kmalloc h size).0 ≡ some h
unfolding kmalloc kfree merge
kfree-kmalloc start end h size v m ne =
    let (above, high, u) =
      kmalloc_walk-Undone (align8 size) h start end v.high v.low v.tiles m ne in
    let not_null : ((kmalloc_walk (align8 size) h).0 == 0) ≡ false = ground (arith, above) in
    let back : sub64 (kmalloc_walk (align8 size) h).0 header
        ≡ (kmalloc_walk (align8 size) h).0 - header =
      omega (arith, above, high, v.low) in
    rw (not_null, back, u.found) (ap some u.merges)
