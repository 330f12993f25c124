-- ===== src/Sys/Sample.antt =====
-- A small system for the tests: one file, an empty screen and memory that holds the path of the file.
use chef_os.Prelude.{ℕ, refl, arith, ◌==◌, if◌then◌else◌, List, [], ◌∷◌, some, replicate}
use chef_os.Fs.Tree.{Node, Store, dir_node, file_node}
use chef_os.Fs.Vfs.{Vfs, closed}
use chef_os.Video.Fb.{FbInfo}
use chef_os.Proc.Process.{process_init}
use chef_os.Sys.{System}
use chef_os.Sys.Print.{IsReady}

-- The root holds the file `b`.
abbrev nodes : ℕ → Node
nodes i =
    if i == 0
    then record (dir_node (47 ∷ [])) { children = 1 ∷ [] }
    else file_node (98 ∷ []) (5 ∷ 6 ∷ [])

abbrev pub sample_store : Store
sample_store = record { node = nodes; next = 2 }

abbrev sample_vfs : Vfs
sample_vfs = record {
  store = sample_store;
  root = some 0;
  table = replicate 64 closed;
  last_char = 0;
  serial = [];
}

abbrev pub sample_fb : FbInfo
sample_fb = record {
  frontbuffer = λ k. 0;
  backbuffer = λ k. 0;
  width = 200;
  height = 100;
  pitch = 256;
  bpp = 32;
  cursor_x = 0;
  cursor_y = 0;
  fg_color = 1;
  bg_color = 0;
}

-- The string `/b` at 0x1000.
abbrev pub path : List ℕ
path = 47 ∷ 98 ∷ []

abbrev memory : ℕ → ℕ
memory a = if a == 0x1000 then 47 else if a == 0x1001 then 98 else 0

abbrev pub sample : System
sample = record {
  vfs = sample_vfs;
  fb = sample_fb;
  memory = memory;
  processes = process_init;
  services = [];
  pmm = record { bitmap = λ i. 0; total_pages = 0; free_pages = 0 };
  ports = [];
  line = record {
    fuel = 1;
    status = λ n. 0x20;
    registers = record { status_reads = 0; data_reads = 0; writes = [] };
  };
}

pub sample-IsReady : IsReady sample
sample-IsReady n = (0, omega arith, refl)
