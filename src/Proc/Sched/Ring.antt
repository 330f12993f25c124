-- ===== src/Proc/Sched/Ring.antt =====
-- The ring of threads, and the order in which yielding goes round it.
use chef_os.Prelude.{
  ℕ, zero, suc, ◌+◌, ◌≤◌, ◌<◌, ◌≡◌, ◌≢◌, refl, ap, ◌∙◌, List, [], ◌∷◌, ◌++◌, Option, some, length,
  get_elem?, arith,
}
use chef_os.Proc.Sched.{
  Sched, Thread, sched_init, thread_create, sched_yield, yield_from, yield_to, link, new_thread,
  create_at,
}

-- Following `next` from `a` leads through the threads of the list, none of which is `b`, to `b`; all
-- are below `bound`.
unfoldable pub Chain : Sched → (bound a : ℕ) → List ℕ → (b : ℕ) → Type 0
Chain s bound a [] b = (a < bound) × ((s.thread a).next ≡ some b)
Chain s bound a (t ∷ ts) b =
    (a < bound) × ((s.thread a).next ≡ some t) × (t ≢ b) × Chain s bound t ts b

-- The head of the list and the threads behind it are a ring.
pub record IsRing (s : Sched) (head : ℕ) (ts : List ℕ) : Type 0 where
  pub list : s.list ≡ some head
  pub chain : Chain s s.next_address head ts head

-- The first of `k` yields that are made one after another is the innermost.
unfoldable pub yields : ℕ → Sched → Sched
unfolding sched_yield
yields zero s = s
yields (suc k) s = yields k (sched_yield s)

sched_yield-next :
    (s : Sched) (a n : ℕ)
    → s.current ≡ some a
    → (s.thread a).next ≡ some n
    → sched_yield s ≡ record s { current = some n }
unfolding sched_yield
sched_yield-next s a n e c = ap (yield_from s) e ∙ ap (yield_to s) c

Chain-current :
    (s : Sched) (c : Option ℕ) (bound a b : ℕ) (ts : List ℕ)
    → Chain s bound a ts b
    → Chain (record s { current = c }) bound a ts b
unfolding Chain
Chain-current s c bound a b [] d = d
Chain-current s c bound a b (t ∷ ts) d = (d.0, d.1, d.2, Chain-current s c bound t b ts d.3)

-- From the start of a chain, the k-th yield makes the k-th thread of it the current one.
yields-Chain :
    (s : Sched) (bound a b : ℕ) (ts : List ℕ) (k : ℕ)
    → Chain s bound a ts b
    → s.current ≡ some a
    → k ≤ length ts + 1
    → (yields k s).current ≡ get_elem? (a ∷ (ts ++ (b ∷ []))) k
unfolding yields Chain
yields-Chain s bound a b ts zero c e le = e
yields-Chain s bound a b [] (suc zero) c e le = ap (λ s1. s1.current) (sched_yield-next s a b e c.1)
yields-Chain s bound a b [] (suc (suc k)) c e le = absurd (omega arith)
yields-Chain s bound a b (t ∷ ts) (suc k) c e le =
    ap (λ s1. (yields k s1).current) (sched_yield-next s a t e c.1)
    ∙ yields-Chain (record s { current = some t }) bound t b ts k
        (Chain-current s (some t) bound t b ts c.3) refl (omega arith)

-- In a ring of the head and n more threads whose head is the current one, the k-th yield makes the
-- k-th thread behind the head the current one, for each k from 0 to n, and yield n + 1 the head.
pub sched_yield-IsRing :
    (s : Sched) (head : ℕ) (ts : List ℕ) (k : ℕ)
    → IsRing s head ts
    → s.current ≡ some head
    → k ≤ length ts + 1
    → (yields k s).current ≡ get_elem? (head ∷ (ts ++ (head ∷ []))) k
sched_yield-IsRing s head ts k r e le = yields-Chain s s.next_address head head ts k r.chain e le

link-kept :
    (s : Sched) (new : Thread) (head v : ℕ)
    → v ≢ head
    → v < s.next_address
    → ((link s head new).thread v).next ≡ (s.thread v).next
link-kept s new head v other lt = ground arith

-- A chain that starts behind the head is not changed by a new thread behind the head.
Chain-link :
    (s : Sched) (new : Thread) (head u : ℕ) (ts : List ℕ)
    → u ≢ head
    → Chain s s.next_address u ts head
    → Chain (link s head new) (s.next_address + 1) u ts head
unfolding Chain
Chain-link s new head u [] ne c = (omega (arith, c.0), link-kept s new head u ne c.0 ∙ c.1)
Chain-link s new head u (t ∷ ts) ne c = (
  omega (arith, c.0),
  link-kept s new head u ne c.0 ∙ c.1,
  c.2,
  Chain-link s new head t ts c.2 c.3,
)

module _ (s : Sched) (head entry : ℕ) (name : List ℕ) (stack_phys : ℕ) where
  linked : Sched
  linked = link s head (new_thread s head entry name stack_phys)

  linked_head : (linked.thread head).next ≡ some s.next_address
  unfolding linked
  linked_head = ground arith

  linked_new : head < s.next_address → (linked.thread s.next_address).next ≡ (s.thread head).next
  unfolding linked
  linked_new lt = ground arith

  linked-Chain :
      (ts : List ℕ)
      → Chain s s.next_address head ts head
      → Chain linked (s.next_address + 1) head (s.next_address ∷ ts) head
  unfolding Chain linked
  linked-Chain [] c =
      (omega (arith, c.0), linked_head, omega (arith, c.0), (omega arith, linked_new c.0 ∙ c.1))
  linked-Chain (t ∷ ts) c = (
    omega (arith, c.0),
    linked_head,
    omega (arith, c.0),
    (
      omega arith,
      linked_new c.0 ∙ c.1,
      c.2,
      Chain-link s (new_thread s head entry name stack_phys) head t ts c.2 c.3,
    ),
  )

-- The ring of `s` with a new thread right behind the head.
pub record Joined (s t : Sched) (head : ℕ) (ts : List ℕ) : Type 0 where
  pub ring : IsRing t head (s.next_address ∷ ts)
  pub same_current : t.current ≡ s.current

-- `thread_create` puts the new thread right behind the head of a ring; the others stay in their
-- order, and the current thread is the same.
pub thread_create-IsRing :
    (entry : ℕ) (name : List ℕ) (stack_phys : ℕ) (s : Sched) (head : ℕ) (ts : List ℕ)
    → IsRing s head ts
    → (t : Sched) × (thread_create entry name stack_phys s ≡ some t) × Joined s t head ts
unfolding thread_create linked
thread_create-IsRing entry name stack_phys s head ts r = (
  linked s head entry name stack_phys,
  ap (create_at s entry name stack_phys) r.list,
  record {
    ring = record { list = r.list; chain = linked-Chain s head entry name stack_phys ts r.chain };
    same_current = refl;
  },
)

-- After `sched_init` the only thread is a ring of its own and the current one.
pub sched_init-IsRing :
    (s : Sched)
    → IsRing (sched_init s) s.next_address [] × ((sched_init s).current ≡ some s.next_address)
unfolding sched_init Chain
sched_init-IsRing s = (record { list = refl; chain = (omega arith, own) }, refl)
  where
    own : ((sched_init s).thread s.next_address).next ≡ some s.next_address
    own = ground arith
