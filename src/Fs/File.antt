-- ===== src/Fs/File.antt =====
-- The contents of a ramfs file, kernel/src/fs/ramfs.c: `data`, `capacity` and `length`. A new
-- buffer from `kmalloc`, which is taken to succeed, holds what `fresh` says, since `kmalloc` does
-- not clear it.
pub mod ReadWrite
use chef_os.Prelude.{
  ℕ, zero, suc, ◌+◌, ◌-◌, ◌*◌, ◌/◌, leb, ltb, if◌then◌else◌, ◌&&◌, Bool, List, [], ◌∷◌, length,
  get_or, u64,
}

pub record File : Type 0 where
  pub data_at : ℕ → ℕ
  pub capacity : ℕ
  pub length : ℕ

-- The bytes that a `memcpy` of `n` bytes takes from `offset` on.
unfoldable pub slice : (ℕ → ℕ) → (offset n : ℕ) → List ℕ
slice b offset zero = []
slice b offset (suc n) = b offset ∷ slice b (offset + 1) n

-- The number of bytes that `ramfs_read` copies.
abbrev pub read_size : File → (offset size : ℕ) → ℕ
read_size f offset size = if ltb f.length (u64 (offset + size)) then f.length - offset else size

-- The bytes that are put in the caller's buffer; their number is the result.
unfoldable pub ramfs_read : File → (offset size : ℕ) → List ℕ
unfolding slice
ramfs_read f offset size =
    if leb f.length offset then [] else slice f.data_at offset (read_size f offset size)

-- `(n + 511) & ~511`
abbrev pub round_up_512 : ℕ → ℕ
round_up_512 n = u64 (n + 511) / 512 * 512

-- `memcpy` of `len` bytes of the first to the start of the second.
abbrev pub copy_over : (old new : ℕ → ℕ) → (len : ℕ) → ℕ → ℕ
copy_over old new len i = if ltb i len then old i else new i

abbrev pub grown : (fresh : ℕ → ℕ) → File → (end : ℕ) → File
grown fresh f end =
    if ltb f.capacity end
    then record f { data_at = copy_over f.data_at fresh f.length; capacity = round_up_512 end }
    else f

-- `memcpy(data + offset, buffer, size)`
abbrev pub patch : (ℕ → ℕ) → (offset : ℕ) → List ℕ → ℕ → ℕ
patch b offset bytes i =
    if leb offset i && ltb i (offset + length bytes) then get_or bytes (i - offset) 0 else b i

unfoldable pub ramfs_write : (fresh : ℕ → ℕ) → File → (offset : ℕ) → List ℕ → File
ramfs_write fresh f offset bytes =
    let end = u64 (offset + length bytes) in
    let g = grown fresh f end in
    record g {
      data_at = patch g.data_at offset bytes;
      length = if ltb f.length end then end else f.length;
    }
