-- ===== src/Proc/Process.antt =====
-- Processes and the services that are started first, kernel/src/proc/process.c and init.c. `kzalloc`
-- is taken to succeed. A C string is the list of its bytes.
pub mod Pids
use chef_os.Prelude.{ℕ, ◌+◌, ◌*◌, List, [], ◌∷◌, true, false, Bool, take, u32}

pub data ProcState : Type 0 where
  ready running sleeping zombie stopped : ProcState

pub record Process : Type 0 where
  pub pid : ℕ
  pub ppid : ℕ
  pub name : List ℕ
  pub state : ProcState
  pub memory_used : ℕ

-- `s_proc_list`, from its head, and `s_next_pid`.
pub record Processes : Type 0 where
  pub list : List Process
  pub next_pid : ℕ

abbrev pub process_init : Processes
process_init = record { list = []; next_pid = 1 }

abbrev pub new_process : Processes → (name : List ℕ) → (ppid : ℕ) → Process
new_process s name ppid = record {
  pid = s.next_pid;
  ppid = ppid;
  name = take 31 name;
  state = running;
  memory_used = 16 * 1024;
}

unfoldable pub process_create : (name : List ℕ) → (ppid : ℕ) → Processes → Process × Processes
process_create name ppid s = (
  new_process s name ppid,
  record { list = new_process s name ppid ∷ s.list; next_pid = u32 (s.next_pid + 1) },
)

pub record Service : Type 0 where
  pub name : List ℕ
  pub description : List ℕ
  pub pid : ℕ
  pub is_active : Bool

-- `klogd`, `compositor` and `chef-sh`, with their descriptions.
unfoldable pub services : List Service
services =
    record {
      name = 107 ∷ 108 ∷ 111 ∷ 103 ∷ 100 ∷ [];
      description =
          75 ∷ 101 ∷ 114 ∷ 110 ∷ 101 ∷ 108 ∷ 32 ∷ 83 ∷ 121 ∷ 115 ∷ 116 ∷ 101 ∷ 109 ∷ 32 ∷ 76 ∷ 111
          ∷ 103 ∷ 103 ∷ 105 ∷ 110 ∷ 103 ∷ 32 ∷ 68 ∷ 97 ∷ 101 ∷ 109 ∷ 111 ∷ 110 ∷ [];
      pid = 0;
      is_active = false;
    }
    ∷ record {
      name = 99 ∷ 111 ∷ 109 ∷ 112 ∷ 111 ∷ 115 ∷ 105 ∷ 116 ∷ 111 ∷ 114 ∷ [];
      description =
          67 ∷ 104 ∷ 101 ∷ 102 ∷ 32 ∷ 78 ∷ 97 ∷ 116 ∷ 105 ∷ 118 ∷ 101 ∷ 32 ∷ 50 ∷ 68 ∷ 32 ∷ 83 ∷ 117
          ∷ 114 ∷ 102 ∷ 97 ∷ 99 ∷ 101 ∷ 32 ∷ 67 ∷ 111 ∷ 109 ∷ 112 ∷ 111 ∷ 115 ∷ 105 ∷ 116 ∷ 111
          ∷ 114 ∷ [];
      pid = 0;
      is_active = false;
    }
    ∷ record {
      name = 99 ∷ 104 ∷ 101 ∷ 102 ∷ 45 ∷ 115 ∷ 104 ∷ [];
      description =
          73 ∷ 110 ∷ 116 ∷ 101 ∷ 114 ∷ 97 ∷ 99 ∷ 116 ∷ 105 ∷ 118 ∷ 101 ∷ 32 ∷ 80 ∷ 97 ∷ 114 ∷ 99
          ∷ 104 ∷ 109 ∷ 101 ∷ 110 ∷ 116 ∷ 32 ∷ 83 ∷ 104 ∷ 101 ∷ 108 ∷ 108 ∷ [];
      pid = 0;
      is_active = false;
    }
    ∷ []

-- The loop of `init_system_boot` over the services.
unfoldable pub start_services : List Service → Processes → List Service × Processes
unfolding process_create
start_services [] s = ([], s)
start_services (v ∷ vs) s =
    let made = process_create v.name 1 s in
    let rest = start_services vs made.1 in
    (record v { pid = (made.0).pid; is_active = true } ∷ rest.0, rest.1)

-- The process `init`, and then the services.
unfoldable pub init_system_boot : Processes → List Service × Processes
unfolding start_services services process_create
init_system_boot s = start_services services (process_create (105 ∷ 110 ∷ 105 ∷ 116 ∷ []) 0 s).1
