-- ===== src/Boot/Files.antt =====
-- The files that `kmain` makes, kernel/src/boot/entry.c, and its read of /etc/os-release.
use chef_os.Prelude.{ℕ, List, ◌++◌, Option, none, some, bytes}
use chef_os.Text.Signed.{ℤ, pos, negsuc}
use chef_os.Fs.Tree.{Store, ramfs_create_root, ramfs_create_dir, ramfs_create_file, devfs_init}
use chef_os.Fs.Vfs.{Vfs, vfs_init, vfs_open, vfs_read, vfs_close}

abbrev pub os_release : List ℕ
os_release =
    bytes "NAME=\"Chef OS\"\nVERSION=\"1.0.0-alpha\"\nID=chef-os\n"
    ++ bytes "PRETTY_NAME=\"Chef OS 1.0 (Warm Parchment)\"\n"

-- The directories `dev`, `bin`, `etc` and `home` of the root, and the index of the first and the third.
unfoldable pub make_dirs : (root : ℕ) → Store → (Option ℕ × Option ℕ) × Store
unfolding ramfs_create_dir
make_dirs root s =
    let (dev, s1) = ramfs_create_dir s (some root) (bytes "dev") in
    let (bin, s2) = ramfs_create_dir s1 (some root) (bytes "bin") in
    let (etc, s3) = ramfs_create_dir s2 (some root) (bytes "etc") in
    let (home, s4) = ramfs_create_dir s3 (some root) (bytes "home") in ((dev, etc), s4)

-- The store with all files.
unfoldable pub make_files : (root : ℕ) → Store → Store
unfolding make_dirs devfs_init ramfs_create_file
make_files root s =
    let ((dev, etc), s1) = make_dirs root s in
    (ramfs_create_file (devfs_init dev s1) etc (bytes "os-release") os_release).1

unfoldable pub boot_files : Vfs → Vfs
unfolding vfs_init ramfs_create_root make_files
boot_files v =
    let (root, s) = ramfs_create_root v.store in
    record (vfs_init v) { root = some root; store = make_files root s }

-- The bytes read from the descriptor, if there is one, and the files after.
abbrev pub checked : ℤ × Vfs → Option (List ℕ) × Vfs
checked (negsuc n, v) = (none, v)
checked (pos i, v) = let r = vfs_read (pos i) 32 v in (some r.1, vfs_close (pos i) r.2)

-- `vfs_open`, `vfs_read` of 32 bytes and `vfs_close`.
unfoldable pub check_os_release : Vfs → Option (List ℕ) × Vfs
unfolding vfs_open vfs_read vfs_close
check_os_release v = checked (vfs_open v (bytes "/etc/os-release") 0)
