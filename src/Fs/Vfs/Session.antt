-- ===== src/Fs/Vfs/Session.antt =====
-- The table of descriptors when a file is opened, read and closed.
use chef_os.Prelude.{
  ℕ, ◌<◌, ◌≡◌, ◌≢◌, ◌⊎◌, inl, inr, refl, ap, ◌∙◌, sym, ◌==◌, ltb, if◌then◌else◌, Bool, true, false,
  List, Option, none, some, length, arith, Bool-cases,
}
use chef_os.Text.Signed.{ℤ, pos, negsuc}
use chef_os.Fs.Tree.{vfs_lookup}
use chef_os.Fs.Vfs.{Vfs, open_node, vfs_open, entry, live_fd, read_at, vfs_read, vfs_close}
use chef_os.Fs.Vfs.Table.{Opened, vfs_open_lem, vfs_close-entry}
use chef_os.Fs.Vfs.Kept.{
  SameNodes, SameNodes-refl, read_op_at-SameNodes, vfs_open-TableOnly, vfs_close-TableOnly,
}

-- The index that `live_fd` gives is that of the descriptor.
live_index : (v : Vfs) (i k n : ℕ) → live_fd v (pos i) ≡ some (k, n) → i ≡ k
live_index v i k n e = pick (ltb i 64) (entry v i).node e
  where
    pick :
        (b : Bool) (o : Option ℕ)
        → if◌then◌else◌ {A = Option (ℕ × ℕ)} b
            (elim o as (λ z. Option (ℕ × ℕ)) [ none ↦ none | some m ↦ some (i, m) ])
            none
          ≡ some (k, n)
        → i ≡ k
    pick true none h = ground arith
    pick true (some m) h = ground arith
    pick false o h = ground arith

-- `vfs_read` of a descriptor of the table.
vfs_read-SameNodes :
    (v : Vfs) (i count : ℕ) → i < length v.table → SameNodes v (vfs_read (pos i) count v).2
unfolding vfs_read
vfs_read-SameNodes v i count lt = by_live (live_fd v (pos i)) refl
  where
    by_live : (o : Option (ℕ × ℕ)) → live_fd v (pos i) ≡ o → SameNodes v (read_at v count o).2
    by_live none e = SameNodes-refl v
    by_live (some (k, n)) e =
        read_op_at-SameNodes v k n count (v.store.node n).read
          (omega (arith, live_index v i k n e, lt))

-- `vfs_open` gave descriptor `i`, which names a node now, or -1 and changed nothing.
open_cases :
    (v : Vfs) (path : List ℕ) (flags : ℕ)
    → ((node : ℕ) × (i : ℕ) × Opened v node flags (vfs_open v path flags) i)
      ⊎ (vfs_open v path flags ≡ (negsuc 0, v))
open_cases v path flags = by_lookup (vfs_lookup v.store v.root path) refl
  where
    refused :
        (o : Option (Option ℕ))
        → vfs_lookup v.store v.root path ≡ o
        → open_node v flags o ≡ (negsuc 0, v)
        → vfs_open v path flags ≡ (negsuc 0, v)
    refused o e h = unfold vfs_open in rw e h

    by_lookup :
        (o : Option (Option ℕ))
        → vfs_lookup v.store v.root path ≡ o
        → ((node : ℕ) × (i : ℕ) × Opened v node flags (vfs_open v path flags) i)
          ⊎ (vfs_open v path flags ≡ (negsuc 0, v))
    by_lookup none e = inr (refused none e refl)
    by_lookup (some none) e = inr (refused (some none) e refl)
    by_lookup (some (some node)) e = elim (vfs_open_lem v path flags node e) [
      | inl (i, o) ↦ inl (node, i, o)
      | inr full ↦ inr (λ z. (full.result z, full.same z))
    ]

-- The state after `vfs_open`, `vfs_read` of `count` bytes and `vfs_close` of a descriptor.
abbrev pub read_and_close : Vfs → (i count : ℕ) → Vfs
read_and_close v i count = vfs_close (pos i) (vfs_read (pos i) count v).2

session-SameNodes :
    (v w : Vfs) (node flags i count : ℕ) (r : ℤ)
    → length v.table ≡ 64
    → w.root ≡ v.root
    → w.serial ≡ v.serial
    → Opened v node flags (r, w) i
    → SameNodes v (read_and_close w i count)
session-SameNodes v w node flags i count r full root serial o =
    let below : i < length w.table = omega (arith, o.inside, o.size) in
    let after = vfs_read-SameNodes w i count below in
    let w2 = (vfs_read (pos i) count w).2 in
    let named : (entry w2 i).node ≡ some node = after.nodes i ∙ ap (λ d. d.node) o.names in
    let (gone, rest) =
      vfs_close-entry w2 i node (omega (arith, below, o.size, full))
        (omega (arith, below, after.size)) named in
    let last = vfs_close-TableOnly w2 (pos i) in
    record {
      store = last.store ∙ after.store ∙ o.nodes;
      root = last.root ∙ after.root ∙ root;
      size = last.table ∙ after.size ∙ o.size;
      serial = last.serial ∙ after.serial ∙ serial;
      nodes = λ j. elim (Bool-cases (j == i)) [
        | inl here ↦ rw (index j here) (gone ∙ sym o.unused)
        | inr there ↦
            ap (λ d. d.node) (rest j (other j there))
            ∙ after.nodes j
            ∙ ap (λ d. d.node) (o.others j (other j there))
      ];
    }
  where
    index : (j : ℕ) → (j == i) ≡ true → j ≡ i
    index j e = ground arith

    other : (j : ℕ) → (j == i) ≡ false → j ≢ i
    other j e = ground arith

-- In a table of 64 entries, `vfs_open`, `vfs_read` and `vfs_close` of what it gave leave every file, and
-- the node of every descriptor, as they were; or `vfs_open` returns -1 and changes nothing.
pub vfs_open-session :
    (v : Vfs) (path : List ℕ) (flags count : ℕ)
    → length v.table ≡ 64
    → ((i : ℕ) × ((vfs_open v path flags).0 ≡ pos i)
        × SameNodes v (read_and_close (vfs_open v path flags).1 i count))
      ⊎ (vfs_open v path flags ≡ (negsuc 0, v))
vfs_open-session v path flags count full = elim (open_cases v path flags) [
  | inl (node, i, o) ↦
      let kept = vfs_open-TableOnly v path flags in
      inl (
        i,
        o.result,
        session-SameNodes v (vfs_open v path flags).1 node flags i count (vfs_open v path flags).0
            full kept.root kept.serial o,
      )
  | inr refused ↦ inr refused
]
