-- ===== src/Fs/Tests.antt =====
-- The theorems of the file systems at concrete states, and small runs of the code.
use chef_os.Prelude.{
  ℕ, ◌+◌, ◌≡◌, ◌⊎◌, refl, ◌==◌, if◌then◌else◌, List, [], ◌∷◌, none, some, replicate, arith,
}
use chef_os.Text.Signed.{pos}
use chef_os.Text.Strings.{strcmp}
use chef_os.Fs.File.{File, ramfs_write}
use chef_os.Fs.File.ReadWrite.{Written, ramfs_write-Written}
use chef_os.Fs.Tree.{
  Store, Node, file_node, dir_node, vfs_lookup, lookup_loop, ramfs_create_file, ramfs_finddir,
  find_child,
}
use chef_os.Fs.Tree.Lookup.{path_of, resolve, vfs_lookup-resolve}
use chef_os.Fs.Tree.Create.{IsFresh, Created, ramfs_create_file-Created}
use chef_os.Fs.Vfs.{Vfs, closed, entry, vfs_open, vfs_read, vfs_write}
use chef_os.Fs.Vfs.Table.{Opened, TableFull, vfs_open_lem}
use chef_os.Fs.Vfs.Transfer.{vfs_read-vfs_write}

abbrev old_file : File
old_file = record { data_at = λ i. i; capacity = 10; length = 6 }

abbrev sevens : ℕ → ℕ
sevens i = 7

ramfs_write-Written_example :
    Written old_file (ramfs_write sevens old_file 8 (1 ∷ 2 ∷ 3 ∷ [])) 8 (1 ∷ 2 ∷ 3 ∷ [])
ramfs_write-Written_example =
    ramfs_write-Written sevens old_file 8 (1 ∷ 2 ∷ 3 ∷ []) (omega arith) (omega arith) (omega arith)

-- A root with a directory `a`, which holds the file `b` of two bytes.
abbrev nodes : ℕ → Node
nodes i =
    if i == 0
    then record (dir_node (47 ∷ [])) { children = 1 ∷ [] }
    else if i == 1
    then record (dir_node (97 ∷ [])) { children = 2 ∷ [] }
    else file_node (98 ∷ []) (5 ∷ 6 ∷ [])

abbrev store : Store
store = record { node = nodes; next = 3 }

vfs_lookup-resolve_example :
    vfs_lookup store (some 0) (path_of ((97 ∷ []) ∷ (98 ∷ []) ∷ []))
    ≡ some (resolve store 0 ((97 ∷ []) ∷ (98 ∷ []) ∷ []))
vfs_lookup-resolve_example = vfs_lookup-resolve store 0 (97 ∷ []) ((98 ∷ []) ∷ []) (
  record { filled = omega arith; short = omega arith; plain = (omega arith, omega arith, tt) },
  (
    record { filled = omega arith; short = omega arith; plain = (omega arith, omega arith, tt) },
    tt,
  ),
)

-- The path `/a/b`.
abbrev path : List ℕ
path = 47 ∷ 97 ∷ 47 ∷ 98 ∷ []

lookup_runs : vfs_lookup store (some 0) path ≡ some (some 2)
unfolding vfs_lookup lookup_loop ramfs_finddir find_child strcmp
lookup_runs = refl

not_there : ramfs_finddir store 1 (99 ∷ []) ≡ none
unfolding ramfs_finddir find_child strcmp
not_there = refl

store-IsFresh : IsFresh store 1
store-IsFresh = record { parent_below = omega arith; children_below = (omega arith, tt) }

ramfs_create_file-Created_example :
    Created store 1 (99 ∷ []) (8 ∷ 9 ∷ []) (ramfs_create_file store (some 1) (99 ∷ []) (8 ∷ 9 ∷ []))
ramfs_create_file-Created_example =
    ramfs_create_file-Created store 1 (99 ∷ []) (8 ∷ 9 ∷ []) store-IsFresh refl (omega arith, tt)
      (omega arith) (omega arith) not_there

abbrev vfs : Vfs
vfs = record {
  store = store;
  root = some 0;
  table = replicate 64 closed;
  last_char = 0;
  serial = [];
}

vfs_open_lem_example :
    ((i : ℕ) × Opened vfs 2 0 (vfs_open vfs path 0) i) ⊎ TableFull vfs (vfs_open vfs path 0)
vfs_open_lem_example = vfs_open_lem vfs path 0 2 lookup_runs

open_runs : (vfs_open vfs path 0).0 ≡ pos 0
unfolding vfs_open lookup_loop vfs_lookup ramfs_finddir find_child strcmp
open_runs = refl

-- Descriptors 0 and 1 of the file.
abbrev twice : Vfs
twice = record vfs {
  table =
      record { node = some 2; offset = 1; flags = 0 }
      ∷ record { node = some 2; offset = 1; flags = 0 }
      ∷ replicate 62 closed;
}

vfs_read-vfs_write_example :
    ((vfs_write sevens (pos 0) (1 ∷ 2 ∷ 3 ∷ []) twice).0 ≡ pos 3)
    × ((entry (vfs_write sevens (pos 0) (1 ∷ 2 ∷ 3 ∷ []) twice).1 0).offset ≡ 1 + 3)
    × ((vfs_read (pos 1) 3 (vfs_write sevens (pos 0) (1 ∷ 2 ∷ 3 ∷ []) twice).1).0 ≡ pos 3)
    × ((vfs_read (pos 1) 3 (vfs_write sevens (pos 0) (1 ∷ 2 ∷ 3 ∷ []) twice).1).1 ≡ 1 ∷ 2 ∷ 3 ∷ [])
vfs_read-vfs_write_example =
    vfs_read-vfs_write sevens twice 0 1 2 (1 ∷ 2 ∷ 3 ∷ [])
      (record { in_range = omega arith; in_table = omega arith; node = refl })
      (record { in_range = omega arith; in_table = omega arith; node = refl })
      (record { reads = refl; writes = refl; fits = omega arith }) (omega arith) refl (omega arith)
      (omega arith)
