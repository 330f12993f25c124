-- ===== src/Fs/Tree/Create.antt =====
-- What a created file or directory adds to the tree.
use chef_os.Prelude.{
  ℕ, zero, suc, ◌+◌, ◌≤◌, ◌<◌, ◌≡◌, ◌≢◌, refl, ltb, leb, if◌then◌else◌, true, false, List, [], ◌∷◌,
  ◌++◌, Option, none, some, length, arith, ap, ◌∙◌, sym, take, u64, get_or, ◌^◌, ◌-◌, Bool-cases,
  inl, inr,
}
use chef_os.Text.Signed.{ℤ, pos, negsuc}
use chef_os.Text.Strings.{strcmp}
use chef_os.Text.Strings.Order.{IsText, strcmp_iff}
use chef_os.Fs.File.{ramfs_read}
use chef_os.Fs.File.ReadWrite.{slice_lem}
use chef_os.Fs.Tree.{
  contents, Store, Node, is_zero, find_child, ramfs_finddir, add_child, takes_child, file_node,
  ramfs_create_file,
}

is_zero_iff : (z : ℤ) → is_zero z ≡ true → z ≡ pos 0
is_zero_iff (pos zero) e = refl
is_zero_iff (pos (suc n)) e = ground arith
is_zero_iff (negsuc n) e = ground arith

abbrev pub AllBelow : ℕ → List ℕ → Type 0
AllBelow bound [] = Unit
AllBelow bound (c ∷ cs) = (c < bound) × AllBelow bound cs

-- The result of a search once `d`, whose name is `own`, is added at the end.
abbrev pub or_added : Option ℕ → (d : ℕ) → (own name : List ℕ) → Option ℕ
or_added (some c) d own name = some c
or_added none d own name = if is_zero (strcmp own name) then some d else none

-- A child added at the end is found if its name is the one that is looked for and no other is.
find_child-append :
    (node : ℕ → Node) (cs : List ℕ) (d : ℕ) (name : List ℕ)
    → find_child node (cs ++ (d ∷ [])) name
      ≡ or_added (find_child node cs name) d (node d).name name
unfolding find_child
find_child-append node [] d name = refl
find_child-append node (c ∷ cs) d name = ground (arith, find_child-append node cs d name)

-- The search reads no more of a node than its name.
find_child-same :
    (f g : ℕ → Node) (bound : ℕ) (cs : List ℕ) (name : List ℕ)
    → ((c : ℕ) → c < bound → (f c).name ≡ (g c).name)
    → AllBelow bound cs
    → find_child f cs name ≡ find_child g cs name
unfolding find_child
find_child-same f g bound [] name h below = refl
find_child-same f g bound (c ∷ cs) name h below =
    rw (h c below.0, find_child-same f g bound cs name h below.1) refl

-- The next node is neither the parent nor one of its children.
pub record IsFresh (s : Store) (p : ℕ) : Type 0 where
  pub parent_below : p < s.next
  pub children_below : AllBelow s.next (s.node p).children

module _ (s : Store) (p : ℕ) (n : Node) where
  add_child-name : (c : ℕ) → c < s.next → ((add_child s p n).node c).name ≡ (s.node c).name
  unfolding add_child
  add_child-name c lt = ground arith

  add_child-new : p < s.next → (add_child s p n).node s.next ≡ n
  unfolding add_child
  add_child-new lt = ground arith

  add_child-children : ((add_child s p n).node p).children ≡ (s.node p).children ++ (s.next ∷ [])
  unfolding add_child
  add_child-children = ground arith

  -- What a search in the parent finds after the node is added.
  ramfs_finddir-add_child :
      (name : List ℕ)
      → IsFresh s p
      → ramfs_finddir (add_child s p n) p name
        ≡ or_added (ramfs_finddir s p name) s.next n.name name
  unfolding ramfs_finddir
  ramfs_finddir-add_child name v =
      rw
        (
          add_child-children,
          find_child-append (add_child s p n).node (s.node p).children s.next name,
          add_child-new v.parent_below,
          find_child-same (add_child s p n).node s.node s.next (s.node p).children name
              add_child-name v.children_below,
        )
        refl

-- What `ramfs_create_file` leaves: the new node is the result and is found under its name, a read of
-- it returns the content, and every other name leads where it led before.
pub record Created (s : Store) (p : ℕ) (name bytes : List ℕ) (r : Option ℕ × Store) : Type 0 where
  pub result : r.0 ≡ some s.next
  pub found : ramfs_finddir r.1 p name ≡ some s.next
  pub content : ramfs_read (r.1.node s.next).file 0 (length bytes) ≡ bytes
  pub others :
      (look : List ℕ)
      → IsText look
      → look ≢ name
      → ramfs_finddir r.1 p look ≡ ramfs_finddir s p look

take-all : (n : ℕ) (xs : List ℕ) → length xs ≤ n → take n xs ≡ xs
take-all zero [] le = refl
take-all (suc n) [] le = refl
take-all zero (x ∷ xs) le = absurd (omega arith)
take-all (suc n) (x ∷ xs) le = ap (λ t. x ∷ t) (take-all n xs (omega arith))

strcmp_same : (name : List ℕ) → IsText name → is_zero (strcmp name name) ≡ true
strcmp_same name h = ap is_zero ((strcmp_iff name name h h).1 refl)

strcmp_other : (a b : List ℕ) → IsText a → IsText b → b ≢ a → is_zero (strcmp a b) ≡ false
strcmp_other a b ha hb ne = elim (Bool-cases (is_zero (strcmp a b))) [
  | inl e ↦ absurd (ne (sym ((strcmp_iff a b ha hb).0 (is_zero_iff _ e))))
  | inr e ↦ e
]

or_added_other :
    (old : Option ℕ) (d : ℕ) (own name : List ℕ)
    → is_zero (strcmp own name) ≡ false
    → or_added old d own name ≡ old
or_added_other none d own name e = rw e refl
or_added_other (some c) d own name e = refl

contents_read :
    (bytes : List ℕ) → length bytes < 2 ^ 64 → ramfs_read (contents bytes) 0 (length bytes) ≡ bytes
unfolding ramfs_read
contents_read [] lt = refl
contents_read (x ∷ xs) lt =
    let whole : (if ltb (suc (length xs)) (u64 (0 + suc (length xs)))
          then suc (length xs) - 0
          else suc (length xs))
        ≡ length (x ∷ xs) =
      ground arith in
    let filled : leb (suc (length xs)) 0 ≡ false = ground arith in
    rw (whole, filled)
      (slice_lem (λ i. get_or (x ∷ xs) i 0) 0 (x ∷ xs)
        (λ i p. ap (λ k. get_or (x ∷ xs) k 0) (omega arith)))

-- In a directory with fewer than 32 children, a new file with a name of at most 127 bytes that no
-- child has is the result of `ramfs_create_file`. It is found under its name from then on, a read of
-- the whole file returns its content, and no search for another name changes.
pub ramfs_create_file-Created :
    (s : Store) (p : ℕ) (name bytes : List ℕ)
    → IsFresh s p
    → takes_child s p ≡ true
    → IsText name
    → length name ≤ 127
    → length bytes < 2 ^ 64
    → ramfs_finddir s p name ≡ none
    → Created s p name bytes (ramfs_create_file s (some p) name bytes)
unfolding ramfs_create_file
ramfs_create_file-Created s p name bytes v takes text short fits new =
    let n = file_node name bytes in
    let own : n.name ≡ name = take-all 127 name short in
    let search = λ (look : List ℕ). ramfs_finddir-add_child s p n look v in
    rw takes (record {
      result = refl;
      found = search name ∙ rw (new, own, strcmp_same name text) refl;
      content =
          ap (λ m. ramfs_read m.file 0 (length bytes)) (add_child-new s p n v.parent_below)
          ∙ contents_read bytes fits;
      others = λ look h ne.
          search look
          ∙ rw own (
              or_added_other (ramfs_finddir s p look) s.next name look
                (strcmp_other name look text h ne));
    })
