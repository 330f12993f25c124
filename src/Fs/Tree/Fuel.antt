-- ===== src/Fs/Tree/Fuel.antt =====
-- The loop of `vfs_lookup` ends within its fuel.
use chef_os.Prelude.{
  Bool-cases, inl, inr, ℕ, zero, suc, ◌≤◌, ◌<◌, ◌≡◌, refl, ◌==◌, List, [], ◌∷◌, Option, none, some,
  length, arith,
}
use chef_os.Text.Strings.{strcmp}
use chef_os.Fs.Tree.{Store, is_zero, enter, split_component, skip_slash, lookup_loop, vfs_lookup}

-- The rest of a path is no longer than the path.
split_component-rest :
    (left : ℕ) (path : List ℕ) → length (split_component left path).1 ≤ length path
unfolding split_component
split_component-rest zero path = omega arith
split_component-rest (suc left) [] = omega arith
split_component-rest (suc left) (c ∷ cs) = ground (arith, split_component-rest left cs)

-- Each round of the loop leaves a shorter path.
round_shorter :
    (left c : ℕ) (cs : List ℕ)
    → length (skip_slash (split_component (suc left) (c ∷ cs)).1) < suc (length cs)
unfolding split_component
round_shorter left c cs = elim (Bool-cases (c == 47)) [
  | inl slash ↦ rw (slash, slash) (omega arith)
  | inr other ↦ rw other (skipped (split_component left cs).1 (split_component-rest left cs))
]
  where
    skipped : (rest : List ℕ) → length rest ≤ length cs → length (skip_slash rest) < suc (length cs)
    skipped [] le = omega arith
    skipped (d ∷ ds) le = ground arith

below : (a b fuel : ℕ) → a < suc b → suc b ≤ suc fuel → a ≤ fuel
below a b fuel lt le = omega arith

lookup_loop_ends :
    (fuel : ℕ) (s : Store) (curr : ℕ) (path : List ℕ)
    → length path ≤ fuel
    → (r : Option ℕ) × (lookup_loop fuel s curr path ≡ some r)
unfolding lookup_loop
lookup_loop_ends fuel s curr [] le = (some curr, refl)
lookup_loop_ends zero s curr (c ∷ cs) le = absurd (omega arith)
lookup_loop_ends (suc fuel) s curr (c ∷ cs) le =
    entered (enter s curr (split_component 127 (c ∷ cs)).0) (λ child.
      lookup_loop_ends fuel s child (skip_slash (split_component 127 (c ∷ cs)).1) (
        below (length (skip_slash (split_component 127 (c ∷ cs)).1)) (length cs) fuel
          (round_shorter 126 c cs) le))
  where
    entered :
        (e : Option ℕ)
        → ((child : ℕ)
            → (r : Option ℕ) × (lookup_loop fuel s child
                  (skip_slash (split_component 127 (c ∷ cs)).1)
                ≡ some r))
        → (r : Option ℕ) × ((elim e as (λ z. Option (Option ℕ)) [
          | none ↦ some none
          | some child ↦ lookup_loop fuel s child (skip_slash (split_component 127 (c ∷ cs)).1)
        ])
            ≡ some r)
    entered none rest = (none, refl)
    entered (some child) rest = rest child

-- The fuel of `vfs_lookup` lasts, whatever the path is.
vfs_lookup_ends :
    (s : Store) (root : Option ℕ) (path : List ℕ)
    → (r : Option ℕ) × (vfs_lookup s root path ≡ some r)
unfolding vfs_lookup
vfs_lookup_ends s none path = (none, refl)
vfs_lookup_ends s (some root) path = elim (Bool-cases (is_zero (strcmp path (47 ∷ [])))) [
  | inl whole ↦ rw whole (some root, refl)
  | inr other ↦ rw other (lookup_loop_ends (length path) s root (skip_slash path) (skipped path))
]
  where
    skipped : (p : List ℕ) → length (skip_slash p) ≤ length p
    skipped [] = omega arith
    skipped (c ∷ cs) = ground arith
