-- ===== src/Proc/Process/Pids.antt =====
-- Process numbers.
use chef_os.Prelude.{
  ℕ, zero, suc, ◌+◌, ◌<◌, ◌^◌, ◌≡◌, refl, ap, ◌∙◌, List, [], ◌∷◌, length, u32, arith,
}
use chef_os.Proc.Process.{Process, Processes, process_init, process_create}

-- Names and parents of processes to be created one after another.
unfoldable pub create_all : List (List ℕ × ℕ) → Processes → Processes
unfolding process_create
create_all [] s = s
create_all ((name, ppid) ∷ rest) s = create_all rest (process_create name ppid s).1

unfoldable pub pids : List Process → List ℕ
pids [] = []
pids (p ∷ ps) = p.pid ∷ pids ps

-- The numbers from `top - 1` down to `base`, `left` of them, before those of a list.
unfoldable pub descending : (left base : ℕ) → List ℕ → List ℕ
descending zero base rest = rest
descending (suc left) base rest = descending left (base + 1) (base ∷ rest)

create_all-pids :
    (reqs : List (List ℕ × ℕ)) (s : Processes)
    → s.next_pid + length reqs < 2 ^ 32
    → pids (create_all reqs s).list ≡ descending (length reqs) s.next_pid (pids s.list)
unfolding create_all descending pids process_create
create_all-pids [] s fits = refl
create_all-pids ((name, ppid) ∷ rest) s fits =
    let next : u32 (s.next_pid + 1) ≡ s.next_pid + 1 = omega arith in
    create_all-pids rest (process_create name ppid s).1 (omega (arith, next))
    ∙ ap (λ n. descending (length rest) n (s.next_pid ∷ pids s.list)) next

-- Processes that are created one after another, fewer than 2^32 - 1 of them, have the numbers 1, 2,
-- 3 and so on: the list holds them from the highest down to 1.
pub process_create-descending :
    (reqs : List (List ℕ × ℕ))
    → 1 + length reqs < 2 ^ 32
    → pids (create_all reqs process_init).list ≡ descending (length reqs) 1 []
unfolding pids
process_create-descending reqs fits = create_all-pids reqs process_init fits
