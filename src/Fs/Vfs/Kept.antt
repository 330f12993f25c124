-- ===== src/Fs/Vfs/Kept.antt =====
-- What each call leaves of the table of descriptors.
use chef_os.Prelude.{
  ℕ, ◌+◌, ◌<◌, ◌≡◌, inl, inr, refl, ap, ◌∙◌, ◌==◌, ltb, if◌then◌else◌, true, List, Option, none,
  some, length, length-set, u64, arith, Bool-cases,
}
use chef_os.Text.Signed.{ℤ}
use chef_os.Fs.Tree.{ReadOp, ramfs_read_op, dev_zero_read_op, dev_kbd_read_op, vfs_lookup}
use chef_os.Fs.Vfs.{
  FileDesc, Vfs, open_slot, open_node, free_slot, close_at, vfs_open, entry, live_fd, advance_fd,
  kbd_read, call_read, read_op_at, vfs_close,
}
use chef_os.Fs.Vfs.Table.{get_or-set}

-- The files are the same, and each descriptor names the node that it named.
pub record SameNodes (v w : Vfs) : Type 0 where
  pub store : w.store ≡ v.store
  pub root : w.root ≡ v.root
  pub size : length w.table ≡ length v.table
  pub serial : w.serial ≡ v.serial
  pub nodes : (j : ℕ) → (entry w j).node ≡ (entry v j).node

pub SameNodes-refl : (v : Vfs) → SameNodes v v
SameNodes-refl v = record {
  store = refl;
  root = refl;
  size = refl;
  serial = refl;
  nodes = λ j. refl;
}

SameNodes-trans : (u v w : Vfs) → SameNodes u v → SameNodes v w → SameNodes u w
SameNodes-trans u v w p q = record {
  store = q.store ∙ p.store;
  root = q.root ∙ p.root;
  size = q.size ∙ p.size;
  serial = q.serial ∙ p.serial;
  nodes = λ j. q.nodes j ∙ p.nodes j;
}

advance_fd-SameNodes :
    (v : Vfs) (i bytes : ℕ) → i < length v.table → SameNodes v (advance_fd v i bytes)
advance_fd-SameNodes v i bytes lt = record {
  store = refl;
  root = refl;
  size = length-set v.table i _;
  serial = refl;
  nodes = λ j.
      ap (λ (d : FileDesc). d.node)
        (get_or-set v.table i j (record (entry v i) { offset = u64 ((entry v i).offset + bytes) })
          lt)
      ∙ same j;
}
  where
    same :
        (j : ℕ)
        → (if i == j
            then record (entry v i) { offset = u64 ((entry v i).offset + bytes) }
            else entry v j).node
          ≡ (entry v j).node
    same j = elim (Bool-cases (i == j)) [
      | inl here ↦ rw here (ap (λ k. (entry v k).node) (index here))
      | inr there ↦ rw there refl
    ]
      where
        index : (i == j) ≡ true → i ≡ j
        index e = ground arith

kbd_read-SameNodes : (v : Vfs) (size : ℕ) → SameNodes v (kbd_read v size).1
kbd_read-SameNodes v size = elim (Bool-cases (ltb 0 size)) [
  | inl more ↦
      rw more (record { store = refl; root = refl; size = refl; serial = refl; nodes = λ j. refl })
  | inr less ↦ rw less (SameNodes-refl v)
]

call_read-SameNodes :
    (op : ReadOp) (v : Vfs) (n offset size : ℕ) → SameNodes v (call_read op v n offset size).1
call_read-SameNodes ramfs_read_op v n offset size = SameNodes-refl v
call_read-SameNodes dev_zero_read_op v n offset size = SameNodes-refl v
call_read-SameNodes dev_kbd_read_op v n offset size = kbd_read-SameNodes v size

pub read_op_at-SameNodes :
    (v : Vfs) (i n count : ℕ) (op : Option ReadOp)
    → i < length v.table
    → SameNodes v (read_op_at v i n count op).2
read_op_at-SameNodes v i n count none lt = SameNodes-refl v
read_op_at-SameNodes v i n count (some op) lt =
    let called = call_read op v n (entry v i).offset count in
    let kept = call_read-SameNodes op v n (entry v i).offset count in
    SameNodes-trans v called.1 _ kept
      (advance_fd-SameNodes called.1 i (length called.0) (omega (arith, lt, kept.size)))

-- `vfs_open` and `vfs_close` change the table only.
pub record TableOnly (v w : Vfs) : Type 0 where
  pub store : w.store ≡ v.store
  pub root : w.root ≡ v.root
  pub table : length w.table ≡ length v.table
  pub serial : w.serial ≡ v.serial

open_slot-TableOnly :
    (v : Vfs) (node flags : ℕ) (slot : Option ℕ) → TableOnly v (open_slot v node flags slot).1
open_slot-TableOnly v node flags none = record {
  store = refl;
  root = refl;
  table = refl;
  serial = refl;
}
open_slot-TableOnly v node flags (some i) = record {
  store = refl;
  root = refl;
  table = length-set v.table i _;
  serial = refl;
}

open_node-TableOnly :
    (v : Vfs) (flags : ℕ) (found : Option (Option ℕ)) → TableOnly v (open_node v flags found).1
open_node-TableOnly v flags none = record { store = refl; root = refl; table = refl; serial = refl }
open_node-TableOnly v flags (some none) = record {
  store = refl;
  root = refl;
  table = refl;
  serial = refl;
}
open_node-TableOnly v flags (some (some node)) =
    open_slot-TableOnly v node flags (free_slot v.table 0)

pub vfs_open-TableOnly :
    (v : Vfs) (path : List ℕ) (flags : ℕ) → TableOnly v (vfs_open v path flags).1
unfolding vfs_open
vfs_open-TableOnly v path flags = open_node-TableOnly v flags (vfs_lookup v.store v.root path)

close_at-TableOnly : (v : Vfs) (fd : Option (ℕ × ℕ)) → TableOnly v (close_at v fd)
close_at-TableOnly v none = record { store = refl; root = refl; table = refl; serial = refl }
close_at-TableOnly v (some (i, n)) = record {
  store = refl;
  root = refl;
  table = length-set v.table i _;
  serial = refl;
}

pub vfs_close-TableOnly : (v : Vfs) (fd : ℤ) → TableOnly v (vfs_close fd v)
unfolding vfs_close
vfs_close-TableOnly v fd = close_at-TableOnly v (live_fd v fd)
