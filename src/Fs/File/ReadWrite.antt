-- ===== src/Fs/File/ReadWrite.antt =====
-- What a write leaves in a ramfs file.
use chef_os.Prelude.{
  ℕ, suc, ◌+◌, ◌-◌, ◌^◌, ◌≤◌, ◌<◌, ◌≡◌, refl, ap, ◌∙◌, leb, ltb, ◌&&◌, true, false, List, [], ◌∷◌,
  length, get_or, arith,
}
use Prim.Native.Nat.{max}
use chef_os.Fs.File.{File, slice, read_size, ramfs_read, ramfs_write}

-- The buffer of a file is as long as the file.
abbrev pub Fits : File → Type 0
Fits f = f.length ≤ f.capacity

pub slice_lem :
    (b : ℕ → ℕ) (offset : ℕ) (bytes : List ℕ)
    → ((i : ℕ) → i < length bytes → b (offset + i) ≡ get_or bytes i 0)
    → slice b offset (length bytes) ≡ bytes
unfolding slice
slice_lem b offset [] h = refl
slice_lem b offset (x ∷ xs) h =
    let first : b offset ≡ x = ap b (omega arith) ∙ h 0 (omega arith) in
    let rest = slice_lem b (offset + 1) xs (λ i p. ap b (omega arith) ∙ h (suc i) (omega arith)) in
    rw (first, rest) refl

-- What a write does to a file: the length grows to the end of the bytes if it was lower, the buffer
-- is long enough, the bytes are there, and the others up to the old length are as before.
pub record Written (f g : File) (offset : ℕ) (bytes : List ℕ) : Type 0 where
  pub fits : Fits g
  pub long : g.length ≡ max f.length (offset + length bytes)
  pub there : ramfs_read g offset (length bytes) ≡ bytes
  pub rest :
      (i : ℕ)
      → i < f.length
      → (leb offset i && ltb i (offset + length bytes)) ≡ false
      → g.data_at i ≡ f.data_at i

-- A write of bytes, whose end is 512 or more below 2^64, makes the file at least as long as that end
-- and its buffer at least as long as the file. A read of that many bytes at the same offset returns
-- them, and all other bytes of the old file are as before, whatever a new buffer holds.
pub ramfs_write-Written :
    (fresh : ℕ → ℕ) (f : File) (offset : ℕ) (bytes : List ℕ)
    → Fits f
    → 0 < length bytes
    → offset + length bytes + 512 ≤ 2 ^ 64
    → Written f (ramfs_write fresh f offset bytes) offset bytes
unfolding ramfs_write ramfs_read
ramfs_write-Written fresh f offset bytes fits some_bytes room =
    let g = ramfs_write fresh f offset bytes in
    let short : leb g.length offset ≡ false = ground arith in
    let whole : read_size g offset (length bytes) ≡ length bytes = ground arith in
    record {
      fits = ground arith;
      long = ground arith;
      there = rw (short, whole) (slice_lem g.data_at offset bytes back);
      rest = λ i old outside. rw outside (ground arith);
    }
  where
    back :
        (i : ℕ)
        → i < length bytes
        → (ramfs_write fresh f offset bytes).data_at (offset + i) ≡ get_or bytes i 0
    back i p =
        let inside : (leb offset (offset + i) && ltb (offset + i) (offset + length bytes)) ≡ true =
          ground arith in
        let index : offset + i - offset ≡ i = omega arith in rw (inside, index) refl
