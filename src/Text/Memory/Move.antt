-- ===== src/Text/Memory/Move.antt =====
-- What the copying functions leave in memory.
use chef_os.Prelude.{
  ℕ, zero, suc, ◌+◌, ◌-◌, ◌≤◌, ◌<◌, ◌≡◌, ◌⊎◌, leb, ltb, ◌&&◌, Bool, if◌then◌else◌, arith, u8, ap,
}
use chef_os.Text.Memory.{Memory, store, memset, copy_up, copy_down, memcpy, memmove}

abbrev pub within : (base len a : ℕ) → Bool
within base len a = leb base a && ltb a (base + len)

-- A copy upwards is right where the destination does not start inside the source behind its start.
copy_up_lem :
    (len d s : ℕ) (m : Memory) (a : ℕ)
    → (d ≤ s) ⊎ (s + len ≤ d)
    → copy_up len d s m a ≡ (if within d len a then m (s + (a - d)) else m a)
unfolding copy_up store
copy_up_lem zero d s m a h = ground arith
copy_up_lem (suc len) d s m a h =
    ground (arith, copy_up_lem len (d + 1) (s + 1) (store m d (m s)) a, index_up, index_start)
  where
    index_up : d < a → m (s + 1 + (a - (d + 1))) ≡ m (s + (a - d))
    index_up p = ap m (omega arith)

    index_start : d ≡ a → m (s + (a - d)) ≡ m s
    index_start p = ap m (omega arith)

copy_down_lem :
    (len d s : ℕ) (m : Memory) (a : ℕ)
    → s ≤ d
    → copy_down len d s m a ≡ (if within d len a then m (s + (a - d)) else m a)
unfolding copy_down store
copy_down_lem zero d s m a h = ground arith
copy_down_lem (suc len) d s m a h =
    ground (arith, copy_down_lem len d s (store m (d + len) (m (s + len))) a h, index_end)
  where
    index_end : d + len ≡ a → m (s + (a - d)) ≡ m (s + len)
    index_end p = ap m (omega arith)

-- `memset` writes the low byte of `val` to the `len` bytes from `dest` on, and to no other.
pub memset_lem :
    (len dest val : ℕ) (m : Memory) (a : ℕ)
    → memset len dest val m a ≡ (if within dest len a then u8 val else m a)
unfolding memset store
memset_lem zero dest val m a = ground arith
memset_lem (suc len) dest val m a =
    ground (arith, memset_lem len (dest + 1) val (store m dest (u8 val)) a)

-- `memmove` leaves in the destination the bytes that the source held before the call, also where
-- the two overlap, and changes no other byte.
pub memmove_lem :
    (dest src len : ℕ) (m : Memory) (a : ℕ)
    → memmove dest src len m a ≡ (if within dest len a then m (src + (a - dest)) else m a)
unfolding memmove
memmove_lem dest src len m a =
    ground (arith, copy_up_lem len dest src m a, copy_down_lem len dest src m a, same)
  where
    same : dest ≡ src → dest ≤ a → m (src + (a - dest)) ≡ m a
    same e p = ap m (omega arith)

-- `memcpy` does what `memmove` does if the destination does not start inside the source behind its
-- start.
pub memcpy-memmove :
    (dest src len : ℕ) (m : Memory) (a : ℕ)
    → (dest ≤ src) ⊎ (src + len ≤ dest)
    → memcpy dest src len m a ≡ memmove dest src len m a
unfolding memcpy
memcpy-memmove dest src len m a h =
    ground (arith, copy_up_lem len dest src m a h, memmove_lem dest src len m a)
