-- ===== src/Prelude/Env.antt =====
-- The helpers with which the commands read environment variables; `value` is what `os.Getenv` returns,
-- empty for a variable that is not set.
use toska_mesh.Prelude.Tests.{if◌then◌else◌}
use Prim.Native.String.{String}
use mathlib.Core.Option.{none, some}
use text.Mathlib.Text.{◌==◌ as str_eq}
use toska_mesh.Prelude.Int.{ℤ, pos, ltb_ℤ, leb_ℤ}
use toska_mesh.Prelude.Text.{atoi}

-- `envOr`, on the value of the variable
unfoldable pub env_or : String → String → String
env_or value fallback = if str_eq value "" then fallback else value

-- `if v, err := strconv.Atoi(value); err == nil && v > 0 { x = v }`
unfoldable pub positive_or : String → ℤ → ℤ
positive_or value fallback = elim (atoi value) [
  | none ↦ fallback
  | some v ↦ if ltb_ℤ (pos 0) v then v else fallback
]

-- the same, with `v >= 0`
unfoldable pub nonneg_or : String → ℤ → ℤ
nonneg_or value fallback = elim (atoi value) [
  | none ↦ fallback
  | some v ↦ if leb_ℤ (pos 0) v then v else fallback
]
