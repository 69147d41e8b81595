-- ===== src/Base/Switch.antt =====
-- A C `switch` whose cases all return a value.
use Prim.Native.Nat.{ℕ}
use mathlib.Core.Bool.{true, false}
use mathlib.Core.List.{List, [], ◌∷◌}
use mug_os.Base.Tests.{◌==◌}

-- The value of the first case that is `k`, or the default.
unfoldable pub switch {ℓ} : {A : Type ℓ} → ℕ → A → List (ℕ × A) → A
switch k default [] = default
switch k default ((case, value) ∷ cases) = elim (k == case) [
  | true ↦ value
  | false ↦ switch k default cases
]
