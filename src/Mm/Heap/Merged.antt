-- ===== src/Mm/Heap/Merged.antt =====
-- The merge loop of `kfree`: the neighbours and the bytes in use after it.
use chef_os.Prelude.{
  ℕ, ◌+◌, ◌^◌, ◌<◌, ◌≡◌, refl, Bool, false, ◌&&◌, [], ◌∷◌, arith, Bool-cases, inl, inr, ap,
}
use chef_os.Mm.Heap.{HeapBlock, Heap, header, join, merge_from}
use chef_os.Mm.Heap.Tiling.{Tiles, Tiles-le, in_use}

abbrev pub head_free : Heap → Bool
head_free [] = false
head_free (b ∷ bs) = b.is_free

-- No two neighbours are free.
abbrev pub Merged : Heap → Type 0
Merged [] = Unit
Merged (b ∷ bs) = ((b.is_free && head_free bs) ≡ false) × Merged bs

pub head_free-merge_from : (b : HeapBlock) (bs : Heap) → head_free (merge_from b bs) ≡ b.is_free
unfolding merge_from
head_free-merge_from b [] = refl
head_free-merge_from b (c ∷ bs) = elim (Bool-cases (b.is_free && c.is_free)) [
  | inl both ↦ rw (both, merge_from) (head_free-merge_from (join b c) bs)
  | inr one ↦ rw (one, merge_from)
]

pub merge_from-Merged : (b : HeapBlock) (bs : Heap) → Merged (merge_from b bs)
unfolding merge_from
merge_from-Merged b [] = ground arith
merge_from-Merged b (c ∷ bs) = elim (Bool-cases (b.is_free && c.is_free)) [
  | inl both ↦ rw (both, merge_from) (merge_from-Merged (join b c) bs)
  | inr one ↦
      rw (one, merge_from) (ground (arith, one, head_free-merge_from c bs), merge_from-Merged c bs)
]

join-Tiles :
    (b c : HeapBlock) (bs : Heap) (start end : ℕ)
    → end < 2 ^ 64
    → Tiles start (b ∷ c ∷ bs) end
    → Tiles start (join b c ∷ bs) end
join-Tiles b c bs start end high t = (t.0, rw next t.1.1)
  where
    next : start + header + (join b c).size ≡ start + header + b.size + header + c.size
    next = omega (arith, Tiles-le bs (start + header + b.size + header + c.size) end t.1.1)

pub merge_from-Tiles :
    (b : HeapBlock) (bs : Heap) (start end : ℕ)
    → end < 2 ^ 64
    → Tiles start (b ∷ bs) end
    → Tiles start (merge_from b bs) end
unfolding merge_from
merge_from-Tiles b [] start end high t = t
merge_from-Tiles b (c ∷ bs) start end high t = elim (Bool-cases (b.is_free && c.is_free)) [
  | inl both ↦
      rw (both, merge_from)
        (merge_from-Tiles (join b c) bs start end high (join-Tiles b c bs start end high t))
  | inr one ↦
      rw (one, merge_from) (t.0, merge_from-Tiles c bs (start + header + b.size) end high t.1)
]

pub in_use-merge_from :
    (b : HeapBlock) (bs : Heap) (x : ℕ) → in_use (merge_from b bs) x ≡ in_use (b ∷ bs) x
unfolding merge_from in_use
in_use-merge_from b [] x = refl
in_use-merge_from b (c ∷ bs) x = elim (Bool-cases (b.is_free && c.is_free)) [
  | inl both ↦ rw (both, merge_from) (ground (arith, both, in_use-merge_from (join b c) bs x))
  | inr one ↦ rw (one, merge_from) (ground (arith, in_use-merge_from c bs x))
]

-- Where nothing is to merge the loop changes nothing.
pub merge_from_same : (b : HeapBlock) (bs : Heap) → Merged (b ∷ bs) → merge_from b bs ≡ b ∷ bs
unfolding merge_from
merge_from_same b [] m = refl
merge_from_same b (c ∷ bs) m = rw (m.0, merge_from) (ap (λ cs. b ∷ cs) (merge_from_same c bs m.1))
