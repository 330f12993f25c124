-- ===== src/Text/Strings/Copy.antt =====
-- What `strncpy` writes.
use chef_os.Prelude.{
  ℕ, zero, suc, ◌+◌, ◌-◌, ◌<◌, ◌≡◌, ◌≢◌, ◌⊎◌, ◌==◌, if◌then◌else◌, arith, ap, ◌∙◌, false, true,
}
use chef_os.Text.Memory.{Memory, store}
use chef_os.Text.Memory.Move.{within}
use chef_os.Text.Strings.{pad, strncpy}

pad_lem : (n d : ℕ) (m : Memory) (a : ℕ) → pad n d m a ≡ (if within d n a then 0 else m a)
unfolding pad store
pad_lem zero d m a = ground arith
pad_lem (suc n) d m a = ground (arith, pad_lem n (d + 1) (store m d 0) a)

-- The string at `s` has `k` bytes before its NUL.
pub record HasText (m : Memory) (s k : ℕ) : Type 0 where
  pub text : (i : ℕ) → i < k → m (s + i) ≢ 0
  pub terminator : m (s + k) ≡ 0

HasText-tail :
    (m : Memory) (d s k v : ℕ)
    → HasText m s (suc k)
    → (d < s) ⊎ (s + suc k < d)
    → HasText (store m d v) (s + 1) k
unfolding store
HasText-tail m d s k v h apart = record {
  text = λ i p. ground (arith, h.text (i + 1), at i);
  terminator = ground (arith, h.terminator, at k);
}
  where
    at : (i : ℕ) → m (s + 1 + i) ≡ m (s + suc i)
    at i = ap m (omega arith)

-- A string of `k` bytes, `k` below `n`, is copied with its NUL, and zeros follow up to index `n`:
-- one byte more than the `n` that were asked for. No other byte changes.
pub strncpy_short :
    (k n d s : ℕ) (m : Memory) (a : ℕ)
    → HasText m s k
    → k < n
    → (d + n < s) ⊎ (s + k < d)
    → strncpy d s n m a
      ≡ (if within d k a then m (s + (a - d)) else if within d (n + 1) a then 0 else m a)
unfolding strncpy store
strncpy_short k zero d s m a h lt apart = absurd (omega arith)
strncpy_short zero (suc n) d s m a h lt apart =
    let nul : m s ≡ 0 = ap m (omega arith) ∙ h.terminator in
    let stop : (m s == 0) ≡ true = ground arith in
    rw stop (ground (arith, pad_lem (suc n) (d + 1) (store m d (m s)) a))
strncpy_short (suc k) (suc n) d s m a h lt apart =
    let first : m s ≢ 0 = λ e. h.text 0 (omega arith) (ap m (omega arith) ∙ e) in
    let go : (m s == 0) ≡ false = ground arith in
    let tail = HasText-tail m d s k (m s) h (ground arith) in
    rw go (
      ground (
        arith,
        strncpy_short k n (d + 1) (s + 1) (store m d (m s)) a tail (omega arith) (ground arith),
        later,
        start,
      ))
  where
    later : d < a → m (s + 1 + (a - (d + 1))) ≡ m (s + (a - d))
    later p = ap m (omega arith)

    start : d ≡ a → m (s + (a - d)) ≡ m s
    start p = ap m (omega arith)
