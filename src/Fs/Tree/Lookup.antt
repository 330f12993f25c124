-- ===== src/Fs/Tree/Lookup.antt =====
-- Which node `vfs_lookup` finds.
use chef_os.Prelude.{
  ℕ, zero, suc, ◌≤◌, ◌<◌, ◌≡◌, ◌≢◌, refl, ◌==◌, false, List, [], ◌∷◌, ◌++◌, Option, none, some,
  length, length-append, arith, ap, ◌∙◌,
}
use chef_os.Text.Strings.{strcmp}
use chef_os.Fs.Tree.{Store, is_zero, enter, split_component, skip_slash, lookup_loop, vfs_lookup}

-- No NUL and no slash.
abbrev pub IsPlain : List ℕ → Type 0
IsPlain [] = Unit
IsPlain (c ∷ cs) = (c ≢ 0) × (c ≢ 47) × IsPlain cs

-- A name that stands between slashes: not empty and shorter than 127 bytes.
pub record IsComponent (c : List ℕ) : Type 0 where
  pub filled : 0 < length c
  pub short : length c < 127
  pub plain : IsPlain c

abbrev pub AllComponents : List (List ℕ) → Type 0
AllComponents [] = Unit
AllComponents (c ∷ cs) = IsComponent c × AllComponents cs

-- `/a/b/c` for the names a, b and c.
unfoldable pub path_of : List (List ℕ) → List ℕ
path_of [] = []
path_of (c ∷ cs) = 47 ∷ (c ++ path_of cs)

-- The node at the end of the names, each of them found in the directory before it.
unfoldable pub resolve : Store → ℕ → List (List ℕ) → Option ℕ
resolve s curr [] = some curr
resolve s curr (c ∷ cs) = elim (enter s curr c) [ none ↦ none | some child ↦ resolve s child cs ]

split_component-append :
    (left : ℕ) (c : List ℕ) (cs : List (List ℕ))
    → length c < left
    → IsPlain c
    → split_component left (c ++ path_of cs) ≡ (c, path_of cs)
unfolding split_component path_of
split_component-append zero c cs lt h = absurd (omega arith)
split_component-append (suc left) [] [] lt h = refl
split_component-append (suc left) [] (d ∷ cs) lt h = refl
split_component-append (suc left) (x ∷ c) cs lt h =
    let other : (x == 47) ≡ false = ground (arith, h.1) in
    rw (other, split_component-append left c cs (omega arith) h.2) refl

skip_slash-plain : (c rest : List ℕ) → IsPlain c → 0 < length c → skip_slash (c ++ rest) ≡ c ++ rest
skip_slash-plain [] rest h lt = absurd (omega arith)
skip_slash-plain (x ∷ c) rest h lt = ground (arith, h.1)

-- The names left, without the slash that the loop has skipped.
unfoldable pub rest_of : List (List ℕ) → List ℕ
rest_of [] = []
rest_of (c ∷ cs) = c ++ path_of cs

skip_slash-path_of : (cs : List (List ℕ)) → skip_slash (path_of cs) ≡ rest_of cs
unfolding path_of rest_of
skip_slash-path_of [] = refl
skip_slash-path_of (c ∷ cs) = refl

length-rest_of : (cs : List (List ℕ)) → length (rest_of cs) ≤ length (path_of cs)
unfolding path_of rest_of
length-rest_of [] = omega arith
length-rest_of (c ∷ cs) = omega arith

-- One round of the loop, after the path is cut.
advance : ℕ → Store → ℕ → List ℕ × List ℕ → Option (Option ℕ)
advance fuel s curr part = elim (enter s curr part.0) [
  | none ↦ some none
  | some child ↦ lookup_loop fuel s child (skip_slash part.1)
]

lookup_loop-advance :
    (fuel : ℕ) (s : Store) (curr x : ℕ) (path : List ℕ) {part : List ℕ × List ℕ}
    → split_component 127 (x ∷ path) ≡ part
    → lookup_loop (suc fuel) s curr (x ∷ path) ≡ advance fuel s curr part
unfolding lookup_loop advance
lookup_loop-advance fuel s curr x path e = ap (advance fuel s curr) e

lookup_loop-resolve :
    (fuel : ℕ) (s : Store) (curr : ℕ) (cs : List (List ℕ))
    → AllComponents cs
    → length (rest_of cs) ≤ fuel
    → lookup_loop fuel s curr (rest_of cs) ≡ some (resolve s curr cs)
unfolding rest_of advance resolve
lookup_loop-resolve fuel s curr [] h enough = unfold lookup_loop in unfold resolve in refl
lookup_loop-resolve fuel s curr ([] ∷ cs) h enough = absurd (omega (arith, h.0.filled))
lookup_loop-resolve zero s curr ((x ∷ c) ∷ cs) h enough = absurd (omega arith)
lookup_loop-resolve (suc fuel) s curr ((x ∷ c) ∷ cs) h enough =
    lookup_loop-advance fuel s curr x (c ++ path_of cs)
      (split_component-append 127 (x ∷ c) cs h.0.short h.0.plain)
    ∙ found (enter s curr (x ∷ c)) (λ d. lookup_loop-resolve fuel s d cs h.1 room)
  where
    room : length (rest_of cs) ≤ fuel
    room = omega (arith, length-append c (path_of cs), length-rest_of cs)

    found :
        (child : Option ℕ)
        → ((d : ℕ) → lookup_loop fuel s d (rest_of cs) ≡ some (resolve s d cs))
        → elim child [ none ↦ some none | some d ↦ lookup_loop fuel s d (skip_slash (path_of cs)) ]
          ≡ some (elim child [ none ↦ none | some d ↦ resolve s d cs ])
    found none below = refl
    found (some d) below = rw (skip_slash-path_of cs) (below d)

-- The path `/a/b/c` of names that are not empty, have no NUL or slash and are shorter than 127 bytes leads
-- to the node that `finddir` finds for a in the root, then for b and then for c, or to none if one
-- of them is not found. The loop ends on each such path.
pub vfs_lookup-resolve :
    (s : Store) (root : ℕ) (c : List ℕ) (cs : List (List ℕ))
    → AllComponents (c ∷ cs)
    → vfs_lookup s (some root) (path_of (c ∷ cs)) ≡ some (resolve s root (c ∷ cs))
unfolding vfs_lookup
vfs_lookup-resolve s root [] cs h = absurd (omega (arith, h.0.filled))
vfs_lookup-resolve s root (x ∷ c) cs h =
    rw (not_root, skip_slash-path_of ((x ∷ c) ∷ cs))
      (lookup_loop-resolve (length (path_of ((x ∷ c) ∷ cs))) s root ((x ∷ c) ∷ cs) h
        (length-rest_of ((x ∷ c) ∷ cs)))
  where
    not_root : is_zero (strcmp (path_of ((x ∷ c) ∷ cs)) (47 ∷ [])) ≡ false
    not_root = unfold strcmp in unfold path_of in ground (arith, h.0.plain.0)
