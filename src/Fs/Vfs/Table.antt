-- ===== src/Fs/Vfs/Table.antt =====
-- Which descriptor `vfs_open` gives, and what `vfs_close` takes back.
use chef_os.Prelude.{
  ℕ, zero, suc, ◌+◌, ◌<◌, ◌≡◌, ◌≢◌, ◌⊎◌, inl, inr, refl, ap, ◌∙◌, sym, ◌==◌, ltb, if◌then◌else◌,
  true, false, List, [], ◌∷◌, Option, none, some, length, get_or, set, length-set, arith,
  Bool-cases,
}
use chef_os.Text.Signed.{ℤ, pos, negsuc}
use chef_os.Fs.Tree.{vfs_lookup}
use chef_os.Fs.Vfs.{FileDesc, Vfs, closed, is_null, free_slot, vfs_open, entry, live_fd, vfs_close}

pub get_or-set :
    (ds : List FileDesc) (i j : ℕ) (d : FileDesc)
    → i < length ds
    → get_or (set ds i d) j closed ≡ (if i == j then d else get_or ds j closed)
get_or-set [] i j d lt = absurd (omega arith)
get_or-set (e ∷ ds) zero zero d lt = refl
get_or-set (e ∷ ds) zero (suc j) d lt = ground arith
get_or-set (e ∷ ds) (suc i) zero d lt = ground arith
get_or-set (e ∷ ds) (suc i) (suc j) d lt = ground (arith, get_or-set ds i j d (omega arith))

pub get_or-set_self :
    (ds : List FileDesc) (i : ℕ) (d : FileDesc) → i < length ds → get_or (set ds i d) i closed ≡ d
get_or-set_self ds i d lt =
    let same : (i == i) ≡ true = ground arith in get_or-set ds i i d lt ∙ rw same refl

pub get_or-set_ne :
    (ds : List FileDesc) (i j : ℕ) (d : FileDesc)
    → i < length ds
    → j ≢ i
    → get_or (set ds i d) j closed ≡ get_or ds j closed
get_or-set_ne ds i j d lt ne =
    let other : (i == j) ≡ false = ground arith in get_or-set ds i j d lt ∙ rw other refl

-- The first entry of a list that has no node, from which `free_slot` counts from `base` on.
record Slot (ds : List FileDesc) (base : ℕ) (k : ℕ) : Type 0 where
  found : free_slot ds base ≡ some (base + k)
  inside : k < length ds
  unused : (get_or ds k closed).node ≡ none
  lower : (j : ℕ) → j < k → is_null (get_or ds j closed).node ≡ false

record NoSlot (ds : List FileDesc) (base : ℕ) : Type 0 where
  found : free_slot ds base ≡ none
  busy : (j : ℕ) → j < length ds → is_null (get_or ds j closed).node ≡ false

null_iff : (n : Option ℕ) → is_null n ≡ true → n ≡ none
null_iff none e = refl
null_iff (some n) e = ground arith

free_slot_lem : (ds : List FileDesc) (base : ℕ) → ((k : ℕ) × Slot ds base k) ⊎ NoSlot ds base
unfolding free_slot
free_slot_lem [] base = inr (record { found = refl; busy = λ j p. absurd (omega arith) })
free_slot_lem (d ∷ ds) base = elim (Bool-cases (is_null d.node)) [
  | inl e ↦ inl (
    0,
    record {
      found = rw e (ap some (omega arith));
      inside = omega arith;
      unused = null_iff d.node e;
      lower = λ j p. absurd (omega arith);
    },
  )
  | inr e ↦ elim (free_slot_lem ds (base + 1)) [
    | inl (k, s) ↦ inl (
      suc k,
      record {
        found = rw e (s.found ∙ ap some (omega arith));
        inside = omega (arith, s.inside);
        unused = s.unused;
        lower = λ j p. low e k s.lower j p;
      },
    )
    | inr s ↦ inr (record { found = rw e s.found; busy = λ j p. all e s.busy j p })
  ]
]
  where
    low :
        is_null d.node ≡ false
        → (k : ℕ) → ((j : ℕ) → j < k → is_null (get_or ds j closed).node ≡ false)
        → (j : ℕ) → j < suc k
        → is_null (get_or (d ∷ ds) j closed).node ≡ false
    low e k h zero p = e
    low e k h (suc j) p = h j (omega arith)

    all :
        is_null d.node ≡ false
        → ((j : ℕ) → j < length ds → is_null (get_or ds j closed).node ≡ false)
        → (j : ℕ) → j < length (d ∷ ds)
        → is_null (get_or (d ∷ ds) j closed).node ≡ false
    all e h zero p = e
    all e h (suc j) p = h j (omega arith)

-- `vfs_open` gave entry `i`: the lowest without a node. It names the node at offset 0 now, no other
-- entry changes, and nothing but the table does.
pub record Opened (v : Vfs) (node flags : ℕ) (r : ℤ × Vfs) (i : ℕ) : Type 0 where
  pub result : r.0 ≡ pos i
  pub inside : i < length v.table
  pub unused : (entry v i).node ≡ none
  pub lower : (j : ℕ) → j < i → is_null (entry v j).node ≡ false
  pub names : entry r.1 i ≡ record { node = some node; offset = 0; flags = flags }
  pub others : (j : ℕ) → j ≢ i → entry r.1 j ≡ entry v j
  pub nodes : r.1.store ≡ v.store
  pub rest : r.1 ≡ record v { table = r.1.table }
  pub size : length r.1.table ≡ length v.table

-- Every entry has a node, and `vfs_open` returns -1 and changes nothing.
pub record TableFull (v : Vfs) (r : ℤ × Vfs) : Type 0 where
  pub result : r.0 ≡ negsuc 0
  pub busy : (j : ℕ) → j < length v.table → is_null (entry v j).node ≡ false
  pub same : r.1 ≡ v

-- When the path leads to a node, `vfs_open` gives the lowest descriptor that is not in use, at
-- offset 0 of that node, and changes nothing else; or all are in use, and it returns -1.
pub vfs_open_lem :
    (v : Vfs) (path : List ℕ) (flags node : ℕ)
    → vfs_lookup v.store v.root path ≡ some (some node)
    → ((i : ℕ) × Opened v node flags (vfs_open v path flags) i)
      ⊎ TableFull v (vfs_open v path flags)
unfolding vfs_open
vfs_open_lem v path flags node e = rw e (elim (free_slot_lem v.table 0) [
  | inl (k, s) ↦
      let at : free_slot v.table 0 ≡ some k = s.found ∙ ap some (omega arith) in
      rw at (
        inl (
          k,
          record {
            result = refl;
            inside = s.inside;
            unused = s.unused;
            lower = s.lower;
            names = get_or-set_self v.table k _ s.inside;
            others = λ j ne. get_or-set_ne v.table k j _ s.inside ne;
            nodes = refl;
            rest = refl;
            size = length-set v.table k _;
          },
        ))
  | inr s ↦ rw (s.found) (inr (record { result = refl; busy = s.busy; same = refl }))
])

-- `vfs_close` of an entry with a node.
pub live_fd-entry :
    (v : Vfs) (i n : ℕ) → i < 64 → (entry v i).node ≡ some n → live_fd v (pos i) ≡ some (i, n)
live_fd-entry v i n lt e = let small : ltb i 64 ≡ true = ground arith in rw (small, e) refl

pub vfs_close-entry :
    (v : Vfs) (i n : ℕ)
    → i < 64
    → i < length v.table
    → (entry v i).node ≡ some n
    → ((entry (vfs_close (pos i) v) i).node ≡ none)
      × ((j : ℕ) → j ≢ i → entry (vfs_close (pos i) v) j ≡ entry v j)
unfolding vfs_close
vfs_close-entry v i n lt inside e = rw (live_fd-entry v i n lt e) (
  ap (λ d. d.node) (get_or-set_self v.table i (record (entry v i) { node = none }) inside),
  λ j ne. get_or-set_ne v.table i j (record (entry v i) { node = none }) inside ne,
)

pub same_index : (k i : ℕ) → pos k ≡ pos i → k ≡ i
same_index k i e = ground arith

-- `vfs_close` of the descriptor that `vfs_open` gave: its entry has no node any more, and every
-- other entry is as it was before the two calls.
pub vfs_close-vfs_open :
    (v : Vfs) (path : List ℕ) (flags node i : ℕ)
    → vfs_lookup v.store v.root path ≡ some (some node)
    → length v.table ≡ 64
    → (vfs_open v path flags).0 ≡ pos i
    → ((entry (vfs_close (pos i) (vfs_open v path flags).1) i).node ≡ (entry v i).node)
      × ((j : ℕ) → j ≢ i → entry (vfs_close (pos i) (vfs_open v path flags).1) j ≡ entry v j)
vfs_close-vfs_open v path flags node i e size r = elim (vfs_open_lem v path flags node e) [
  | inr f ↦ absurd (ground (arith, r, f.result))
  | inl (k, o) ↦
      let index : k ≡ i = same_index k i (sym o.result ∙ r) in rw index at (close_opened k o)
]
  where
    close_opened :
        (k : ℕ)
        → Opened v node flags (vfs_open v path flags) k
        → ((entry (vfs_close (pos k) (vfs_open v path flags).1) k).node ≡ (entry v k).node)
          × ((j : ℕ) → j ≢ k → entry (vfs_close (pos k) (vfs_open v path flags).1) j ≡ entry v j)
    close_opened k o =
        let at = ap (λ d. d.node) o.names in
        let (gone, rest) =
          vfs_close-entry (vfs_open v path flags).1 k node (omega (arith, o.inside, size))
            (omega (arith, o.inside, o.size)) at in
        (gone ∙ sym o.unused, λ j ne. rest j ne ∙ o.others j ne)
