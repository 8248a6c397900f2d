-- ===== src/Prelude/Trim.antt =====
-- Go's `strings.TrimSpace`.
use Prim.Native.Nat.{ℕ}
use Prim.Native.Char.{code}
use Prim.Native.String.{String, [], ◌∷◌}
use mathlib.Core.Path.{◌≡◌, refl}
use mathlib.Core.Bool.{Bool, true, false, ◌&&◌, ◌||◌}
use toska_mesh.Prelude.Tests.{leb, ◌==◌, if◌then◌else◌}

-- `unicode.IsSpace`
abbrev pub is_space : ℕ → Bool
is_space n =
    (leb 9 n && leb n 13)
    || n == 32
    || n == 0x85
    || n == 0xa0
    || n == 0x1680
    || (leb 0x2000 n && leb n 0x200a)
    || n == 0x2028
    || n == 0x2029
    || n == 0x202f
    || n == 0x205f
    || n == 0x3000

abbrev is_empty : String → Bool
is_empty [] = true
is_empty (c ∷ s) = false

trim_left : String → String
trim_left [] = []
trim_left (c ∷ s) = let rest = trim_left s in if is_space (code c) then rest else c ∷ s

trim_right : String → String
trim_right [] = []
trim_right (c ∷ s) =
    let rest = trim_right s in if is_empty rest && is_space (code c) then [] else c ∷ rest

-- `strings.TrimSpace(s)`
unfoldable pub trim_space : String → String
unfolding trim_left trim_right
trim_space s = trim_right (trim_left s)

trim_space_case : trim_space "  a b " ≡ "a b"
unfolding trim_space
trim_space_case = refl
