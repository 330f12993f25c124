-- ===== src/Text/Strings/Order.antt =====
-- On which strings the comparisons return 0.
use chef_os.Prelude.{
  ℕ, zero, suc, ◌≡◌, ◌≢◌, ◌↔◌, refl, ◌==◌, Bool-cases, inl, inr, List, [], ◌∷◌, arith, take,
}
use chef_os.Text.Signed.{pos}
use chef_os.Text.Strings.{strcmp, strncmp}

-- No byte is NUL.
abbrev pub IsText : List ℕ → Type 0
IsText [] = Unit
IsText (c ∷ s) = (c ≢ 0) × IsText s

-- `strcmp` returns 0 exactly on equal strings.
pub strcmp_iff : (s t : List ℕ) → IsText s → IsText t → (strcmp s t ≡ pos 0) ↔ (s ≡ t)
unfolding strcmp
strcmp_iff [] [] hs ht = (λ e. refl, λ e. refl)
strcmp_iff [] (b ∷ t) hs ht = (λ e. ground arith, λ e. ground arith)
strcmp_iff (a ∷ s) [] hs ht = (λ e. ground arith, λ e. ground arith)
strcmp_iff (a ∷ s) (b ∷ t) hs ht = elim (Bool-cases (a == b)) [
  | inl same ↦ rw same (
    (λ e. ground (arith, (strcmp_iff s t hs.1 ht.1).0 e)),
    (λ e. (strcmp_iff s t hs.1 ht.1).1 (cc)),
  )
  | inr other ↦ rw other ((λ e. ground arith), (λ e. ground arith))
]

-- `strncmp` returns 0 exactly if the first `n` bytes of the strings are the same.
pub strncmp_iff :
    (n : ℕ) (s t : List ℕ) → IsText s → IsText t → (strncmp n s t ≡ pos 0) ↔ (take n s ≡ take n t)
unfolding strncmp
strncmp_iff zero s t hs ht = (λ e. refl, λ e. refl)
strncmp_iff (suc n) [] [] hs ht = (λ e. refl, λ e. refl)
strncmp_iff (suc n) [] (b ∷ t) hs ht = (λ e. ground arith, λ e. ground arith)
strncmp_iff (suc n) (a ∷ s) [] hs ht = (λ e. ground arith, λ e. ground arith)
strncmp_iff (suc n) (a ∷ s) (b ∷ t) hs ht = elim (Bool-cases (a == b)) [
  | inl same ↦ rw same (
    (λ e. ground (arith, (strncmp_iff n s t hs.1 ht.1).0 e)),
    (λ e. (strncmp_iff n s t hs.1 ht.1).1 (cc)),
  )
  | inr other ↦ rw other ((λ e. ground arith), (λ e. ground arith))
]
