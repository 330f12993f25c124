-- ===== src/Fs/Tree.antt =====
-- The tree of names: the nodes of kernel/src/fs/ramfs.c, `vfs_lookup` of kernel/src/fs/vfs.c and
-- the devices of kernel/src/fs/devfs.c. A node's address is its index in the store. `kzalloc` is
-- taken to succeed and gives the next index. A C string is the list of its bytes before the NUL.
pub mod Lookup
pub mod Create
pub mod Fuel
use chef_os.Prelude.{
  ℕ, zero, suc, ◌+◌, ◌≡◌, ◌==◌, ltb, if◌then◌else◌, Bool, true, false, not, ◌||◌, List, [], ◌∷◌,
  ◌++◌, Option, none, some, length, take, get_or, bit_and,
}
use chef_os.Text.Signed.{ℤ, pos, negsuc}
use chef_os.Text.Strings.{strcmp}
use chef_os.Fs.File.{File}

-- The functions that a `read` or a `write` pointer names.
pub data ReadOp : Type 0 where
  ramfs_read_op dev_zero_read_op dev_kbd_read_op : ReadOp

pub data WriteOp : Type 0 where
  ramfs_write_op dev_serial_write_op dev_null_write_op : WriteOp

-- `vfs_node_t` with the rest of `ramfs_entry_t`; `child_count` is the length of `children`. The
-- pointer `finddir` is null or `ramfs_finddir`, and `open` and `close` are always null.
pub record Node : Type 0 where
  pub name : List ℕ
  pub flags : ℕ
  pub file : File
  pub children : List ℕ
  pub read : Option ReadOp
  pub write : Option WriteOp
  pub has_finddir : Bool

pub record Store : Type 0 where
  pub node : ℕ → Node
  pub next : ℕ

abbrev pub fs_file : ℕ
fs_file = 1

abbrev pub fs_directory : ℕ
fs_directory = 2

abbrev pub fs_chardevice : ℕ
fs_chardevice = 3

-- `strcmp(a, b) == 0`
abbrev pub is_zero : ℤ → Bool
is_zero (pos zero) = true
is_zero (pos (suc n)) = false
is_zero (negsuc n) = false

unfoldable pub find_child : (node : ℕ → Node) → List ℕ → (name : List ℕ) → Option ℕ
find_child node [] name = none
find_child node (c ∷ cs) name =
    let rest = find_child node cs name in
    if is_zero (strcmp (node c).name name) then some c else rest

unfoldable pub ramfs_finddir : Store → ℕ → (name : List ℕ) → Option ℕ
unfolding find_child
ramfs_finddir s dir name = find_child s.node (s.node dir).children name

abbrev pub no_data : File
no_data = record { data_at = λ i. 0; capacity = 0; length = 0 }

-- A node of zeros with the name that `strncpy` copies into it.
abbrev pub blank : (name : List ℕ) → Node
blank name = record {
  name = take 127 name;
  flags = 0;
  file = no_data;
  children = [];
  read = none;
  write = none;
  has_finddir = false;
}

abbrev pub dir_node : (name : List ℕ) → Node
dir_node name = record (blank name) { flags = fs_directory; has_finddir = true }

-- `size > 0 && content`: there is content when the list is not empty.
abbrev pub contents : List ℕ → File
contents bytes = record {
  data_at = λ i. get_or bytes i 0;
  capacity = length bytes;
  length = length bytes;
}

abbrev pub file_node : (name bytes : List ℕ) → Node
file_node name bytes = record (blank name) {
  flags = fs_file;
  read = some ramfs_read_op;
  write = some ramfs_write_op;
  file = contents bytes;
}

abbrev pub put_node : ℕ → Node → (ℕ → Node) → ℕ → Node
put_node id n node i = if i == id then n else node i

-- `kzalloc` and `p->children[p->child_count++] = n`
unfoldable pub add_child : Store → (parent : ℕ) → Node → Store
add_child s parent n =
    let p = s.node parent in
    record {
      node =
          put_node parent (record p { children = p.children ++ (s.next ∷ []) })
            (put_node s.next n s.node);
      next = s.next + 1;
    }

-- What `ramfs_create_dir` and `ramfs_create_file` check of a parent that is not null.
abbrev pub takes_child : Store → ℕ → Bool
takes_child s p =
    if bit_and (s.node p).flags fs_directory == 0
    then false
    else ltb (length (s.node p).children) 32

abbrev pub create : Store → (parent : Option ℕ) → Node → Option ℕ × Store
create s none n = (none, s)
create s (some p) n = if takes_child s p then (some s.next, add_child s p n) else (none, s)

unfoldable pub ramfs_create_dir : Store → (parent : Option ℕ) → (name : List ℕ) → Option ℕ × Store
unfolding add_child
ramfs_create_dir s parent name = create s parent (dir_node name)

unfoldable pub ramfs_create_file :
    Store → (parent : Option ℕ) → (name bytes : List ℕ) → Option ℕ × Store
unfolding add_child
ramfs_create_file s parent name bytes = create s parent (file_node name bytes)

unfoldable pub ramfs_create_root : Store → ℕ × Store
ramfs_create_root s =
    (s.next, record { node = put_node s.next (dir_node (47 ∷ [])) s.node; next = s.next + 1 })

-- The inner loop of `vfs_lookup`: the bytes before the next slash, at most `left` of them, and the
-- rest of the path.
unfoldable pub split_component : (left : ℕ) → List ℕ → List ℕ × List ℕ
split_component zero path = ([], path)
split_component (suc left) [] = ([], [])
split_component (suc left) (c ∷ cs) =
    let rest = split_component left cs in if c == 47 then ([], c ∷ cs) else (c ∷ rest.0, rest.1)

-- `if (*path == '/') path++;`
abbrev pub skip_slash : List ℕ → List ℕ
skip_slash [] = []
skip_slash (c ∷ cs) = if c == 47 then cs else c ∷ cs

-- One round of the outer loop for a path that is not empty.
abbrev pub enter : Store → ℕ → (component : List ℕ) → Option ℕ
enter s curr component = if (s.node curr).has_finddir then ramfs_finddir s curr component else none

-- The outer loop, on fuel. The outer option tells whether the fuel was enough.
unfoldable pub lookup_loop : ℕ → Store → ℕ → List ℕ → Option (Option ℕ)
unfolding split_component ramfs_finddir
lookup_loop fuel s curr [] = some (some curr)
lookup_loop zero s curr (c ∷ cs) = none
lookup_loop (suc fuel) s curr (c ∷ cs) =
    let part = split_component 127 (c ∷ cs) in
    elim (enter s curr part.0) [
      | none ↦ some none
      | some child ↦ lookup_loop fuel s child (skip_slash part.1)
    ]

-- `vfs_lookup` of a path under `g_vfs_root`. Each round takes a byte of the path.
unfoldable pub vfs_lookup : Store → (root : Option ℕ) → (path : List ℕ) → Option (Option ℕ)
unfolding lookup_loop
vfs_lookup s none path = some none
vfs_lookup s (some root) path =
    if is_zero (strcmp path (47 ∷ []))
    then some (some root)
    else lookup_loop (length path) s root (skip_slash path)

-- `if (s) { s->flags = FS_CHARDEVICE; ... }`
abbrev pub make_device : Option ReadOp → Option WriteOp → Node → Node
make_device r w n = record n {
  flags = fs_chardevice;
  read = elim r [ none ↦ n.read | some op ↦ some op ];
  write = elim w [ none ↦ n.write | some op ↦ some op ];
}

unfoldable pub add_device :
    Option ReadOp → Option WriteOp → (dev_dir : ℕ) → (name : List ℕ) → Store → Store
unfolding ramfs_create_file
add_device r w dev_dir name s =
    let (made, s1) = ramfs_create_file s (some dev_dir) name [] in
    elim made [
      | none ↦ s1
      | some n ↦ record s1 { node = put_node n (make_device r w (s1.node n)) s1.node }
    ]

-- The names `serial`, `null`, `zero` and `kbd`.
unfoldable pub devfs_init : (dev_dir : Option ℕ) → Store → Store
unfolding add_device
devfs_init none s = s
devfs_init (some d) s = add_device (some dev_kbd_read_op) none d (107 ∷ 98 ∷ 100 ∷ []) (
    add_device (some dev_zero_read_op) none d (122 ∷ 101 ∷ 114 ∷ 111 ∷ []) (
      add_device none (some dev_null_write_op) d (110 ∷ 117 ∷ 108 ∷ 108 ∷ [])
        (add_device none (some dev_serial_write_op) d (115 ∷ 101 ∷ 114 ∷ 105 ∷ 97 ∷ 108 ∷ []) s)))
