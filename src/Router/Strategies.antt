-- ===== src/Router/Strategies.antt =====
-- internal/router/balancer.go: how each strategy picks among the candidates.
-- `none` stands for a nil instance or an index panic.
use toska_mesh.Prelude.{
  ℕ, suc, ◌*◌, ◌%◌, ◌^◌, ◌≤◌, ◌<◌, String, not, Option, none, some, List, [], ◌∷◌, ◌++◌, str_eq,
  ltb, ◌==◌, if◌then◌else◌, length, get_elem?, replicate, keep,
}
use toska_mesh.Prelude.Int.{ℤ, pos, negsuc, max_int64}
use toska_mesh.Prelude.Dict.{lookup}
use toska_mesh.Prelude.Text.{codes, atoi, format_int}
use toska_mesh.Types.{unknown, healthy, status_eq}
use toska_mesh.Router.{Strategy, round_robin, parse_strategy, Instance, Context}
use Prim.Native.Nat.{bit_xor}

-- `filterHealthy`
unfoldable pub filter_healthy : List Instance → List Instance
filter_healthy instances = keep (λ inst. status_eq inst.status healthy) instances

-- `filterNonUnknown`
unfoldable pub filter_non_unknown : List Instance → List Instance
filter_non_unknown instances = keep (λ inst. not (status_eq inst.status unknown)) instances

-- `resolveStrategy`
unfoldable pub resolve_strategy : List Instance → Strategy
resolve_strategy [] = round_robin
resolve_strategy (inst ∷ rest) =
    let later = resolve_strategy rest in
    elim (lookup "lb_strategy" inst.metadata) [
      | none ↦ later
      | some s ↦ if str_eq s "" then later else parse_strategy s
    ]

-- `abs64`
unfoldable pub abs64 : ℤ → ℤ
abs64 (pos n) = pos n
abs64 (negsuc n) = if n == max_int64 then pos max_int64 else pos (suc n)

-- `&instances[n % int64(len(instances))]`. The remainder of a negative number is not positive.
unfoldable pub pick_mod : ℤ → List Instance → Option Instance
pick_mod (pos n) instances = get_elem? instances (n % length instances)
pick_mod (negsuc n) instances =
    if suc n % length instances == 0 then get_elem? instances 0 else none

-- the weight that the metadata give, in `selectWeightedRoundRobin`
unfoldable pub weight : Instance → ℕ
weight inst = elim (lookup "weight" inst.metadata) [
  | none ↦ 1
  | some w ↦ elim (atoi w) [
    | none ↦ 1
    | some (pos n) ↦ if ltb 0 n then n else 1
    | some (negsuc n) ↦ 1
  ]
]

-- the loop of `selectWeightedRoundRobin` that fills `weighted`
unfoldable pub expand : List Instance → List Instance
expand [] = []
expand (inst ∷ rest) = replicate (weight inst) inst ++ expand rest

-- `fnv1a`: `h` after the characters
abbrev offset_basis : ℕ
offset_basis = 2166136261

abbrev prime : ℕ
prime = 16777619

fnv1a_from : ℕ → List ℕ → ℕ
fnv1a_from h [] = h
fnv1a_from h (c ∷ cs) = fnv1a_from (bit_xor h c * prime % 2 ^ 32) cs

unfoldable pub fnv1a : String → ℕ
unfolding fnv1a_from
fnv1a s = fnv1a_from offset_basis (codes s)

-- What `math/rand/v2` returns during one call of `Select`.
pub record Random : Type 0 where
  pub int64 : ℕ
  pub int_n : ℕ → ℕ

-- the documented range of `rand.IntN` and of `rand.Int64`
pub record IsRandom (r : Random) : Type 0 where
  pub int64_range : r.int64 ≤ max_int64
  pub int_n_range : (n : ℕ) → 0 < n → r.int_n n < n

abbrev pub or_empty : Option String → String
or_empty none = ""
or_empty (some s) = s

-- the key of `selectIPHash`
unfoldable pub hash_key : Context → Random → String
hash_key ctx r =
    let key =
      if str_eq ctx.session_id ""
      then or_empty (lookup "X-Correlation-ID" ctx.headers)
      else ctx.session_id in
    if str_eq key "" then format_int (pos r.int64) 16 else key

-- `selectIPHash`
unfoldable pub select_ip_hash : List Instance → Context → Random → Option Instance
select_ip_hash instances ctx r = get_elem? instances (fnv1a (hash_key ctx r) % length instances)

-- `selectRandom`
unfoldable pub select_random : List Instance → Random → Option Instance
select_random instances r = get_elem? instances (r.int_n (length instances))
