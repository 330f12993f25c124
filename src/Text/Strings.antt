-- ===== src/Text/Strings.antt =====
-- The string functions of kernel/src/lib/string.c. Where a function only reads, a C string is the
-- list of its bytes before the NUL; where it writes, it works on memory.
pub mod Order
pub mod Copy
use chef_os.Prelude.{
  ℕ, zero, suc, ◌+◌, ◌==◌, if◌then◌else◌, Bool, List, [], ◌∷◌, Option, none, some,
}
use chef_os.Text.Signed.{ℤ, pos, sub_ℕ}
use chef_os.Text.Memory.{Memory, store}

unfoldable pub strlen : List ℕ → ℕ
strlen [] = 0
strlen (c ∷ s) = strlen s + 1

unfoldable pub strcmp : List ℕ → List ℕ → ℤ
strcmp [] [] = pos 0
strcmp [] (b ∷ t) = sub_ℕ 0 b
strcmp (a ∷ s) [] = sub_ℕ a 0
strcmp (a ∷ s) (b ∷ t) = let rest = strcmp s t in if a == b then rest else sub_ℕ a b

unfoldable pub strncmp : ℕ → List ℕ → List ℕ → ℤ
strncmp zero s t = pos 0
strncmp (suc n) [] [] = pos 0
strncmp (suc n) [] (b ∷ t) = sub_ℕ 0 b
strncmp (suc n) (a ∷ s) [] = sub_ℕ a 0
strncmp (suc n) (a ∷ s) (b ∷ t) = let rest = strncmp n s t in if a == b then rest else sub_ℕ a b

-- `while (n--) *d++ = 0;`
unfoldable pub pad : (n d : ℕ) → Memory → Memory
unfolding store
pad zero d m = m
pad (suc n) d m = pad n (d + 1) (store m d 0)

-- The copy of the NUL ends the first loop before its `n--`, so the second loop starts with the
-- count from before that copy.
unfoldable pub strncpy : (d s n : ℕ) → Memory → Memory
unfolding pad store
strncpy d s zero m = m
strncpy d s (suc n) m =
    let next = strncpy (d + 1) (s + 1) n (store m d (m s)) in
    if m s == 0 then pad (suc n) (d + 1) (store m d (m s)) else next

-- `while ((*d++ = *src++));` on fuel; `none` when it runs out.
unfoldable pub strcpy : (fuel d s : ℕ) → Memory → Option Memory
unfolding store
strcpy zero d s m = none
strcpy (suc fuel) d s m =
    let next = strcpy fuel (d + 1) (s + 1) (store m d (m s)) in
    if m s == 0 then some (store m d (m s)) else next

-- `while (*d) d++;` and then the loop of `strcpy`.
unfoldable pub strcat : (fuel d s : ℕ) → Memory → Option Memory
unfolding strcpy
strcat zero d s m = none
strcat (suc fuel) d s m =
    let next = strcat fuel (d + 1) s m in if m d == 0 then strcpy (suc fuel) d s m else next
