-- ===== src/Proc/Sched.antt =====
-- The ring of threads, kernel/src/proc/sched.c. A thread's address is its index in the store, and
-- `kzalloc`, which is taken to succeed, gives the next index. The stack that `pmm_alloc_pages`
-- returns is an argument.
pub mod Ring
use chef_os.Prelude.{
  ℕ, ◌+◌, ◌*◌, ◌==◌, if◌then◌else◌, List, [], ◌∷◌, Option, none, some, take, u64, sub64,
}
use chef_os.Mm.Pmm.{page_size}

pub data ThreadState : Type 0 where
  thread_ready thread_running thread_blocked thread_terminated : ThreadState

pub record Thread : Type 0 where
  pub rsp : ℕ
  pub rip : ℕ
  pub id : ℕ
  pub state : ThreadState
  pub name : List ℕ
  pub next : Option ℕ

pub record Sched : Type 0 where
  pub thread : ℕ → Thread
  pub next_address : ℕ
  pub next_id : ℕ
  pub current : Option ℕ
  pub list : Option ℕ

abbrev pub put_thread : ℕ → Thread → (ℕ → Thread) → ℕ → Thread
put_thread a t threads b = if b == a then t else threads b

-- The thread `kmain`, which is its own successor.
unfoldable pub sched_init : Sched → Sched
sched_init s =
    let first = s.next_address in
    record {
      thread =
          put_thread first
            (record {
              rsp = 0;
              rip = 0;
              id = s.next_id;
              state = thread_running;
              name = 107 ∷ 109 ∷ 97 ∷ 105 ∷ 110 ∷ [];
              next = some first;
            })
            s.thread;
      next_address = first + 1;
      next_id = u64 (s.next_id + 1);
      current = some first;
      list = some first;
    }

-- The new thread goes behind the head of the list, which the code does not check for null.
abbrev pub new_thread : Sched → (head entry : ℕ) (name : List ℕ) (stack_phys : ℕ) → Thread
new_thread s head entry name stack_phys = record {
  rsp = sub64 (u64 (stack_phys + 4 * page_size)) 16;
  rip = entry;
  id = s.next_id;
  state = thread_ready;
  name = take 31 name;
  next = (s.thread head).next;
}

abbrev pub link : Sched → (head : ℕ) → Thread → Sched
link s head t = record s {
  thread =
      put_thread head (record (s.thread head) { next = some s.next_address })
        (put_thread s.next_address t s.thread);
  next_address = s.next_address + 1;
  next_id = u64 (s.next_id + 1);
}

abbrev pub create_at :
    Sched → (entry : ℕ) (name : List ℕ) (stack_phys : ℕ) → Option ℕ → Option Sched
create_at s entry name stack_phys none = none
create_at s entry name stack_phys (some head) =
    some (link s head (new_thread s head entry name stack_phys))

unfoldable pub thread_create : (entry : ℕ) (name : List ℕ) (stack_phys : ℕ) → Sched → Option Sched
thread_create entry name stack_phys s = create_at s entry name stack_phys s.list

abbrev pub yield_to : Sched → Option ℕ → Sched
yield_to s none = s
yield_to s (some n) = record s { current = some n }

abbrev pub yield_from : Sched → Option ℕ → Sched
yield_from s none = s
yield_from s (some c) = yield_to s (s.thread c).next

unfoldable pub sched_yield : Sched → Sched
sched_yield s = yield_from s s.current
