-- ===== src/Text/Memory.antt =====
-- `memset`, `memcpy`, `memmove` and `memcmp` of kernel/src/lib/string.c over a byte-addressed
-- memory. Addresses do not wrap: a buffer ends below the end of the address space.
pub mod Move
pub mod Compare
use chef_os.Prelude.{ℕ, zero, suc, ◌+◌, ◌==◌, ltb, if◌then◌else◌, Bool, u8}
use chef_os.Text.Signed.{ℤ, sub_ℕ, pos}

abbrev pub Memory : Type 0
Memory = ℕ → ℕ

unfoldable pub store : Memory → ℕ → ℕ → Memory
store m a v i = if a == i then v else m i

unfoldable pub memset : (len dest val : ℕ) → Memory → Memory
unfolding store
memset zero dest val m = m
memset (suc len) dest val m = memset len (dest + 1) val (store m dest (u8 val))

-- `while (len--) *d++ = *s++;`
unfoldable pub copy_up : (len d s : ℕ) → Memory → Memory
unfolding store
copy_up zero d s m = m
copy_up (suc len) d s m = copy_up len (d + 1) (s + 1) (store m d (m s))

-- `d += len; s += len; while (len--) *--d = *--s;`
unfoldable pub copy_down : (len d s : ℕ) → Memory → Memory
unfolding store
copy_down zero d s m = m
copy_down (suc len) d s m = copy_down len d s (store m (d + len) (m (s + len)))

unfoldable pub memcpy : (dest src len : ℕ) → Memory → Memory
unfolding copy_up
memcpy dest src len m = copy_up len dest src m

unfoldable pub memmove : (dest src len : ℕ) → Memory → Memory
unfolding copy_up copy_down
memmove dest src len m =
    if ltb dest src
    then copy_up len dest src m
    else if ltb src dest
    then copy_down len dest src m
    else m

-- The difference of the first bytes that differ.
unfoldable pub memcmp : (len s1 s2 : ℕ) → Memory → ℤ
memcmp zero s1 s2 m = pos 0
memcmp (suc len) s1 s2 m =
    let rest = memcmp len (s1 + 1) (s2 + 1) m in if m s1 == m s2 then rest else sub_ℕ (m s1) (m s2)
