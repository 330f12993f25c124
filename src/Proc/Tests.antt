-- ===== src/Proc/Tests.antt =====
-- The theorems on processes and threads at concrete states.
use chef_os.Prelude.{◌≡◌, refl, [], ◌∷◌, ◌++◌, none, some, get_elem?, arith}
use chef_os.Proc.Process.{process_init, init_system_boot}
use chef_os.Proc.Process.Pids.{pids}
use chef_os.Proc.Sched.{Sched, thread_ready, sched_init, thread_create}
use chef_os.Proc.Sched.Ring.{
  Joined, yields, sched_yield-IsRing, thread_create-IsRing, sched_init-IsRing,
}

boot_pids : pids (init_system_boot process_init).1.list ≡ 4 ∷ 3 ∷ 2 ∷ 1 ∷ []
unfolding init_system_boot pids
boot_pids = refl

abbrev empty : Sched
empty = record {
  thread = λ a. record { rsp = 0; rip = 0; id = 0; state = thread_ready; name = []; next = none };
  next_address = 1;
  next_id = 1;
  current = none;
  list = none;
}

thread_create-IsRing_example :
    (t : Sched) × (thread_create 0x4000 (97 ∷ []) 0x8000 (sched_init empty) ≡ some t)
    × Joined (sched_init empty) t 1 []
thread_create-IsRing_example =
    thread_create-IsRing 0x4000 (97 ∷ []) 0x8000 (sched_init empty) 1 [] (sched_init-IsRing empty).0

sched_yield-IsRing_example :
    (yields 1 (sched_init empty)).current ≡ get_elem? (1 ∷ ([] ++ (1 ∷ []))) 1
sched_yield-IsRing_example =
    sched_yield-IsRing (sched_init empty) 1 [] 1 (sched_init-IsRing empty).0
      (sched_init-IsRing empty).1 (omega arith)
