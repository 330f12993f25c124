-- ===== src/Text/Memory/Compare.antt =====
-- On which ranges of memory `memcmp` returns 0.
use chef_os.Prelude.{
  ℕ, zero, suc, ◌+◌, ◌<◌, ◌≡◌, ◌≢◌, refl, ◌⊎◌, inl, inr, ◌==◌, arith, Bool-cases, ◌∙◌, ap,
}
use chef_os.Text.Signed.{ℤ, pos, sub_ℕ}
use chef_os.Text.Memory.{Memory, memcmp}

-- The ranges agree on their first `n` bytes.
abbrev pub Agree : (n s1 s2 : ℕ) → Memory → Type 0
Agree n s1 s2 m = (i : ℕ) → i < n → m (s1 + i) ≡ m (s2 + i)

Agree-suc :
    (n s1 s2 : ℕ) (m : Memory) → m s1 ≡ m s2 → Agree n (s1 + 1) (s2 + 1) m → Agree (suc n) s1 s2 m
Agree-suc n s1 s2 m e h zero lt = ap m (omega arith) ∙ e ∙ ap m (omega arith)
Agree-suc n s1 s2 m e h (suc i) lt = ap m (omega arith) ∙ h i (omega arith) ∙ ap m (omega arith)

-- Where `memcmp` of `len` bytes finds a difference: at index `k` the ranges first differ, and the
-- result is the difference of the bytes there.
pub record FirstDifference (len s1 s2 : ℕ) (m : Memory) (result : ℤ) (k : ℕ) : Type 0 where
  pub inside : k < len
  pub before : Agree k s1 s2 m
  pub differ : m (s1 + k) ≢ m (s2 + k)
  pub difference : result ≡ sub_ℕ (m (s1 + k)) (m (s2 + k))

-- `memcmp` returns 0 on ranges that agree, and otherwise the difference of the first two bytes at
-- which they differ.
pub memcmp_lem :
    (len s1 s2 : ℕ) (m : Memory)
    → (Agree len s1 s2 m × (memcmp len s1 s2 m ≡ pos 0))
      ⊎ ((k : ℕ) × FirstDifference len s1 s2 m (memcmp len s1 s2 m) k)
unfolding memcmp
memcmp_lem zero s1 s2 m = inl ((λ i p. absurd (omega arith)), refl)
memcmp_lem (suc len) s1 s2 m = elim (Bool-cases (m s1 == m s2)) [
  | inl same ↦ rw same (elim (memcmp_lem len (s1 + 1) (s2 + 1) m) [
    | inl (agree, e) ↦ inl (Agree-suc len s1 s2 m (ground arith) agree, e)
    | inr (k, d) ↦ inr (
      suc k,
      record {
        inside = omega (arith, d.inside);
        before = Agree-suc k s1 s2 m (ground arith) d.before;
        differ = λ e. d.differ (ap m (omega arith) ∙ e ∙ ap m (omega arith));
        difference = rw (next s1 k, next s2 k) at d.difference;
      },
    )
  ])
  | inr other ↦ rw other (
      inr (
        0,
        record {
          inside = omega arith;
          before = λ i p. absurd (omega arith);
          differ = rw (here s1, here s2) (ground arith);
          difference = rw (here s1, here s2) refl;
        },
      ))
]
  where
    next : (s k : ℕ) → s + 1 + k ≡ s + suc k
    next s k = omega arith

    here : (s : ℕ) → s + 0 ≡ s
    here s = omega arith
