-- ===== src/Prelude/Bytes.antt =====
-- A string literal of the code as the list of its bytes.
use Prim.Native.Nat.{ℕ}
use Prim.Native.Char.{code}
use Prim.Native.String.{String, [], ◌∷◌}
use mathlib.Core.List.{List}

abbrev none_left : List ℕ
none_left = mathlib.Core.List.[]

abbrev put : ℕ → List ℕ → List ℕ
put c cs = mathlib.Core.List.◌∷◌ c cs

unfoldable pub bytes : String → List ℕ
bytes [] = none_left
bytes (c ∷ s) = put (code c) (bytes s)
