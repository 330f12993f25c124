-- ===== src/Boot/Tests.antt =====
-- The theorems on the event loop at a concrete machine, and runs of the boot code.
use chef_os.Prelude.{ℕ, ◌≡◌, refl, false, [], none, some, replicate, take, bytes, u32}
use chef_os.Text.Strings.{strcmp}
use chef_os.Fs.File.{ramfs_read}
use chef_os.Fs.Tree.{
  Store, file_node, vfs_lookup, lookup_loop, ramfs_finddir, find_child, ramfs_create_root,
  ramfs_create_dir, ramfs_create_file, add_child, add_device, devfs_init, split_component,
}
use chef_os.Fs.Vfs.{Vfs, closed, vfs_init, vfs_open, vfs_read, vfs_close, free_slot}
use chef_os.Compositor.Layout.{layout_init}
use chef_os.Compositor.ShellUi.{shell_ui_init}
use chef_os.Compositor.Desktop.{compositor_init}
use chef_os.Sys.Sample.{sample}
use chef_os.Boot.Loop.{Machine}
use chef_os.Boot.Files.{make_dirs, make_files, boot_files, check_os_release, os_release}

abbrev empty_store : Store
empty_store = record { node = λ i. file_node [] []; next = 0 }

abbrev empty_vfs : Vfs
empty_vfs = record {
  store = empty_store;
  root = none;
  table = replicate 64 closed;
  last_char = 0;
  serial = [];
}

-- The file that `kmain` makes is the one that it reads.
check_os_release_runs : (check_os_release (boot_files empty_vfs)).0 ≡ some (take 32 os_release)
unfolding check_os_release boot_files make_files make_dirs vfs_init vfs_open vfs_read vfs_close
    free_slot vfs_lookup lookup_loop ramfs_finddir find_child strcmp ramfs_create_root
    ramfs_create_dir ramfs_create_file add_child add_device devfs_init split_component ramfs_read
    bytes
check_os_release_runs = refl

-- There is no device `ata0`.
no_ata0 :
    vfs_lookup (boot_files empty_vfs).store (boot_files empty_vfs).root (bytes "/dev/ata0")
    ≡ some none
unfolding boot_files make_files make_dirs vfs_init vfs_lookup lookup_loop ramfs_finddir find_child
    strcmp ramfs_create_root ramfs_create_dir ramfs_create_file add_child add_device devfs_init
    split_component bytes
no_ata0 = refl

abbrev no_high_half : ℕ → ℕ
no_high_half n = u32 n

abbrev booted : Machine
booted = record {
  sys = sample;
  desktop = compositor_init (some (200, 100));
  engine = layout_init;
  shell_ui = shell_ui_init;
  shell = record { input = []; executed = [] };
  mouse = record {
    state = record {
      x = 3;
      y = 3;
      left_button = false;
      right_button = false;
      middle_button = false;
    };
    cycle = 0;
    byte0 = 0;
    byte1 = 0;
    byte2 = 0;
    max_x = 200;
    max_y = 100;
  };
  ticks = 0;
}
