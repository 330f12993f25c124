-- ===== src/Prelude/Bitwise.antt =====
-- Laws of `bit_or` at variables, from the recursion on binary digits that it stands for.
use Prim.Native.Nat.{
  ℕ, zero, suc, ◌+◌, ◌-◌, ◌*◌, ◌/◌, ◌%◌, ◌^◌, ◌≤◌, ◌<◌, max, digits, bit_or, bit_or-bitwise,
}
use mathlib.Core.Path.{◌≡◌, refl, ap, ◌∙◌, sym}
use native.Mathlib.Nat.{pow-succ', div-div-eq-div-mul}
use native.Mathlib.Omega.{arith}

-- The recursion with some fuel.
abbrev or_digits : ℕ → ℕ → ℕ → ℕ
or_digits fuel a b = digits (λ y. y) max fuel a b

spare : (fuel a b : ℕ) → a ≤ fuel → or_digits (suc fuel) a b ≡ or_digits fuel a b
spare zero zero b le = refl
spare zero (suc a) b le = absurd (omega arith)
spare (suc fuel) zero b le = refl
spare (suc fuel) (suc a) b le =
    ap (λ (d : ℕ). d * 2 + max (suc a % 2) (b % 2)) (spare fuel (suc a / 2) (b / 2) (omega arith))

spare_many : (k a b : ℕ) → or_digits (k + a) a b ≡ or_digits a a b
spare_many zero a b = ap (λ (n : ℕ). or_digits n a b) (omega arith)
spare_many (suc k) a b =
    ap (λ (n : ℕ). or_digits n a b) {y = suc (k + a)} (omega arith)
    ∙ spare (k + a) a b (omega arith)
    ∙ spare_many k a b

bit_or-suc : (a b : ℕ) → bit_or (suc a) b ≡ bit_or (suc a / 2) (b / 2) * 2 + max (suc a % 2) (b % 2)
bit_or-suc a b =
    bit_or-bitwise (suc a) b
    ∙ ap (λ (d : ℕ). d * 2 + max (suc a % 2) (b % 2))
        (ap (λ (n : ℕ). or_digits n (suc a / 2) (b / 2)) (omega arith)
          ∙ spare_many (a - suc a / 2) (suc a / 2) (b / 2)
          ∙ sym (bit_or-bitwise (suc a / 2) (b / 2)))

-- The lowest digit of `bit_or`, and the others.
pub bit_or-half : (a b : ℕ) → bit_or a b / 2 ≡ bit_or (a / 2) (b / 2)
bit_or-half zero b = omega (arith, bit_or-bitwise 0 b, bit_or-bitwise 0 (b / 2))
bit_or-half (suc a) b = omega (arith, bit_or-suc a b)

pub bit_or-odd : (a b : ℕ) → bit_or a b % 2 ≡ max (a % 2) (b % 2)
bit_or-odd zero b = omega (arith, bit_or-bitwise 0 b)
bit_or-odd (suc a) b = omega (arith, bit_or-suc a b)

no_digits : (n a : ℕ) → a ≤ n → bit_or a 0 ≡ a
no_digits n zero le = omega (arith, bit_or-bitwise 0 0)
no_digits zero (suc a) le = absurd (omega arith)
no_digits (suc n) (suc a) le = omega (arith, bit_or-suc a 0, no_digits n (suc a / 2) (omega arith))

pub bit_or-zero : (a : ℕ) → bit_or a 0 ≡ a
bit_or-zero a = no_digits a a (omega arith)

-- Digits below the k-th do not reach the others.
pub bit_or-high : (k a b : ℕ) → b < 2 ^ k → bit_or a b / 2 ^ k ≡ a / 2 ^ k
bit_or-high zero a b lt = let none : b ≡ 0 = omega arith in rw (none, bit_or-zero a) refl
bit_or-high (suc k) a b lt =
    shift (bit_or a b)
    ∙ ap (λ (n : ℕ). n / 2 ^ k) (bit_or-half a b)
    ∙ bit_or-high k (a / 2) (b / 2) (omega arith)
    ∙ sym (shift a)
  where
    shift : (n : ℕ) → n / 2 ^ suc k ≡ n / 2 / 2 ^ k
    shift n = ap (λ (m : ℕ). n / m) (pow-succ' 2 k) ∙ sym (div-div-eq-div-mul n 2 (2 ^ k))
