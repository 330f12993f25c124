-- ===== src/Fs/Vfs.antt =====
-- The table of open files, kernel/src/fs/vfs.c, with the operations that its node pointers name.
-- An `int` is a ℤ. `fresh` is what a buffer that `kmalloc` gives holds.
pub mod Table
pub mod Transfer
pub mod Kept
pub mod Session
use chef_os.Prelude.{
  ℕ, zero, suc, ◌+◌, ◌-◌, ◌==◌, ltb, if◌then◌else◌, Bool, true, false, List, [], ◌∷◌, ◌++◌, Option,
  none, some, length, get_or, set, replicate, u64,
}
use chef_os.Text.Signed.{ℤ, pos, negsuc}
use chef_os.Fs.File.{File, ramfs_read, ramfs_write}
use chef_os.Fs.Tree.{
  Store, Node, ReadOp, WriteOp, ramfs_read_op, dev_zero_read_op, dev_kbd_read_op, ramfs_write_op,
  dev_serial_write_op, dev_null_write_op, put_node, vfs_lookup,
}
use chef_os.Drivers.Keyboard.{get_last_char}

pub record FileDesc : Type 0 where
  pub node : Option ℕ
  pub offset : ℕ
  pub flags : ℕ

-- The nodes, `g_vfs_root`, `s_fd_table`, the keyboard's last character and the bytes sent to the
-- serial port.
pub record Vfs : Type 0 where
  pub store : Store
  pub root : Option ℕ
  pub table : List FileDesc
  pub last_char : ℕ
  pub serial : List ℕ

abbrev pub closed : FileDesc
closed = record { node = none; offset = 0; flags = 0 }

-- `vfs_init`; the table has 64 entries.
unfoldable pub vfs_init : Vfs → Vfs
vfs_init v = record v { table = replicate 64 closed }

abbrev pub is_null : Option ℕ → Bool
is_null none = true
is_null (some n) = false

-- The first entry without a node, from index `i` on.
unfoldable pub free_slot : List FileDesc → ℕ → Option ℕ
free_slot [] i = none
free_slot (d ∷ ds) i = let rest = free_slot ds (i + 1) in if is_null d.node then some i else rest

abbrev pub open_slot : Vfs → (node flags : ℕ) → Option ℕ → ℤ × Vfs
open_slot v node flags none = (negsuc 0, v)
open_slot v node flags (some i) = (
  pos i,
  record v { table = set v.table i (record { node = some node; offset = 0; flags = flags }) },
)

-- The first case is a lookup without fuel, see Fs/Tree/Fuel.
abbrev pub open_node : Vfs → (flags : ℕ) → Option (Option ℕ) → ℤ × Vfs
open_node v flags none = (negsuc 0, v)
open_node v flags (some none) = (negsuc 0, v)
open_node v flags (some (some node)) = open_slot v node flags (free_slot v.table 0)

unfoldable pub vfs_open : Vfs → (path : List ℕ) → (flags : ℕ) → ℤ × Vfs
unfolding free_slot
vfs_open v path flags = open_node v flags (vfs_lookup v.store v.root path)

-- The index of an entry that has a node: `!(fd < 0 || fd >= 64 || !s_fd_table[fd].node)`.
abbrev pub entry : Vfs → ℕ → FileDesc
entry v i = get_or v.table i closed

abbrev pub live_fd : Vfs → ℤ → Option (ℕ × ℕ)
live_fd v (negsuc n) = none
live_fd v (pos i) =
    if ltb i 64 then elim ((entry v i).node) [ none ↦ none | some n ↦ some (i, n) ] else none

abbrev pub close_at : Vfs → Option (ℕ × ℕ) → Vfs
close_at v none = v
close_at v (some (i, n)) = record v { table = set v.table i (record (entry v i) { node = none }) }

unfoldable pub vfs_close : ℤ → Vfs → Vfs
vfs_close fd v = close_at v (live_fd v fd)

-- `s_fd_table[fd].offset += bytes`
abbrev pub advance_fd : Vfs → ℕ → ℕ → Vfs
advance_fd v i bytes = record v {
  table = set v.table i (record (entry v i) { offset = u64 ((entry v i).offset + bytes) });
}

-- The bytes put in the buffer, and the state after. A count of the keyboard's is one byte at most.
abbrev pub kbd_read : Vfs → (size : ℕ) → List ℕ × Vfs
kbd_read v size =
    if ltb 0 size
    then (
      if (get_last_char v.last_char).0 == 0 then [] else (get_last_char v.last_char).0 ∷ [],
      record v { last_char = (get_last_char v.last_char).1 },
    )
    else ([], v)

abbrev pub call_read : ReadOp → Vfs → (node offset size : ℕ) → List ℕ × Vfs
call_read ramfs_read_op v n offset size = (ramfs_read (v.store.node n).file offset size, v)
call_read dev_zero_read_op v n offset size = (replicate size 0, v)
call_read dev_kbd_read_op v n offset size = kbd_read v size

-- The result, the bytes put in the buffer, and the state after.
abbrev pub read_op_at : Vfs → (i n count : ℕ) → Option ReadOp → ℤ × List ℕ × Vfs
read_op_at v i n count none = (negsuc 0, [], v)
read_op_at v i n count (some op) =
    let r = call_read op v n (entry v i).offset count in
    (pos (length r.0), r.0, advance_fd r.1 i (length r.0))

abbrev pub read_at : Vfs → (count : ℕ) → Option (ℕ × ℕ) → ℤ × List ℕ × Vfs
read_at v count none = (negsuc 0, [], v)
read_at v count (some (i, n)) = read_op_at v i n count (v.store.node n).read

unfoldable pub vfs_read : ℤ → (count : ℕ) → Vfs → ℤ × List ℕ × Vfs
unfolding ramfs_read get_last_char
vfs_read fd count v = read_at v count (live_fd v fd)

abbrev pub write_file : (fresh : ℕ → ℕ) → Vfs → (n offset : ℕ) → List ℕ → Vfs
write_file fresh v n offset bytes =
    let node = v.store.node n in
    record v {
      store = record (v.store) {
        node =
            put_node n (record node { file = ramfs_write fresh node.file offset bytes })
              v.store.node;
      };
    }

abbrev pub call_write : (fresh : ℕ → ℕ) → WriteOp → Vfs → (n offset : ℕ) → List ℕ → Vfs
call_write fresh ramfs_write_op v n offset bytes = write_file fresh v n offset bytes
call_write fresh dev_serial_write_op v n offset bytes = record v { serial = v.serial ++ bytes }
call_write fresh dev_null_write_op v n offset bytes = v

abbrev pub write_op_at : (fresh : ℕ → ℕ) → Vfs → (i n : ℕ) → List ℕ → Option WriteOp → ℤ × Vfs
write_op_at fresh v i n bytes none = (negsuc 0, v)
write_op_at fresh v i n bytes (some op) = (
  pos (length bytes),
  advance_fd (call_write fresh op v n (entry v i).offset bytes) i (length bytes),
)

abbrev pub write_at : (fresh : ℕ → ℕ) → Vfs → List ℕ → Option (ℕ × ℕ) → ℤ × Vfs
write_at fresh v bytes none = (negsuc 0, v)
write_at fresh v bytes (some (i, n)) = write_op_at fresh v i n bytes (v.store.node n).write

unfoldable pub vfs_write : (fresh : ℕ → ℕ) → ℤ → List ℕ → Vfs → ℤ × Vfs
unfolding ramfs_write
vfs_write fresh fd bytes v = write_at fresh v bytes (live_fd v fd)
