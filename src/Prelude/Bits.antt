-- ===== src/Prelude/Bits.antt =====
-- Facts about `bit_and` and `bit_or` on bytes are tested at each byte.
use Prim.Native.Nat.{ℕ, zero, suc, ◌<◌}
use mathlib.Core.Path.{◌≡◌}
use mathlib.Core.Bool.{Bool, true, false}
use native.Mathlib.Omega.{arith}
use chef_os.Prelude.Tests.{if◌then◌else◌}

-- The test passes at every number below the bound.
unfoldable pub passes : (bound : ℕ) (test : ℕ → Bool) → Bool
passes zero test = true
passes (suc last) test = let lower = passes last test in if test last then lower else false

pub passes_at :
    (bound : ℕ) (test : ℕ → Bool) (i : ℕ) → passes bound test ≡ true → i < bound → test i ≡ true
unfolding passes
passes_at zero test i all below = absurd (omega arith)
passes_at (suc last) test i all below = ground (arith, passes_at last test i)
