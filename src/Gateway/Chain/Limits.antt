-- ===== src/Gateway/Chain/Limits.antt =====
-- How many requests of one client get past the rate limiter.
use Prim.Native.Nat.{min}
use toska_mesh.Prelude.{
  ℕ, suc, ◌+◌, ◌≤◌, ◌<◌, String, ◌≡◌, refl, ◌∙◌, ◌≢◌, Bool, true, false, some, List, [], ◌∷◌, arith,
  eq_iff, if◌then◌else◌, length, All,
}
use toska_mesh.Prelude.Int.{pos, max_int64, instant_after}
use toska_mesh.Prelude.Dict.{lookup}
use toska_mesh.Gateway.Http.{Request}
use toska_mesh.Gateway.ClientIp.{client_ip_address}
use toska_mesh.Gateway.RateLimiter.{Bucket, RateLimiter, allow}
use toska_mesh.Gateway.RateLimiter
use toska_mesh.Gateway.RateLimiter.Window.{passed, passed-new_window}
use toska_mesh.Gateway.Cors.{cors}
use toska_mesh.Gateway.Config.{GatewayConfig}
use toska_mesh.Gateway.Chain.{
  Library, Gateway, Arrival, Body, preflight, too_many_requests, rejected, handed, proxied,
  serve_mux, authenticated, limited, handle,
}

-- the request is not turned away by the limiter
abbrev pub is_past : Body → Bool
is_past too_many_requests = false
is_past preflight = true
is_past (rejected m) = true
is_past (handed t) = true
is_past (proxied reply) = true

-- the number of requests of a sequence that get past the limiter, in the given order
abbrev pub count_past : Library → GatewayConfig → List (Arrival × Request) → Gateway → ℕ
count_past lib cfg [] g = 0
count_past lib cfg ((env, r) ∷ rest) g =
    let (headers, body, g') = handle lib cfg env r g in
    (if is_past body then 1 else 0) + count_past lib cfg rest g'

abbrev pub times : List (Arrival × Request) → List ℕ
times [] = []
times ((env, r) ∷ rest) = env.limiter_time ∷ times rest

length-times : (rs : List (Arrival × Request)) → length (times rs) ≡ length rs
length-times [] = refl
length-times ((env, r) ∷ rest) = ground (arith, length-times rest)

-- a request of this client, and no preflight
abbrev pub IsFrom : Library → String → Arrival × Request → Type 0
IsFrom lib key (env, r) = (r.method ≢ "OPTIONS") × (client_ip_address lib.net r ≡ key)

-- behind the limiter, nothing changes it and no request is turned away for the number of requests
abbrev IsBehind : Gateway → Body × Gateway → Type 0
IsBehind g (body, g') = (is_past body ≡ true) × (g'.limiter ≡ g.limiter)

IsBehind-serve_mux :
    (lib : Library) (cfg : GatewayConfig) (env : Arrival) (r : Request) (g : Gateway)
    → IsBehind g (serve_mux lib cfg env r g)
unfolding serve_mux
IsBehind-serve_mux lib cfg env r g = ground arith

IsBehind-authenticated :
    (lib : Library) (cfg : GatewayConfig) (env : Arrival) (r : Request) (g : Gateway)
    → IsBehind g (authenticated lib cfg env r g)
unfolding authenticated
IsBehind-authenticated lib cfg env r g = ground (arith, IsBehind-serve_mux lib cfg env r g)

handle-limiter :
    (lib : Library) (cfg : GatewayConfig) (env : Arrival) (r : Request) (g : Gateway) (key : String)
    (rl : RateLimiter)
    → g.limiter ≡ some rl
    → IsFrom lib key (env, r)
    → (is_past (handle lib cfg env r g).1 ≡ (RateLimiter.allow rl key env.limiter_time).1)
      × ((handle lib cfg env r g).2.limiter ≡ some (RateLimiter.allow rl key env.limiter_time).0)
unfolding handle limited cors
handle-limiter lib cfg env r g key rl l f =
    let g' = record g { limiter = some (RateLimiter.allow rl key env.limiter_time).0 } in
    ground (arith, l, eq_iff r.method "OPTIONS", IsBehind-authenticated lib cfg env r g')

count_past-passed :
    (lib : Library) (cfg : GatewayConfig) (rs : List (Arrival × Request)) (g : Gateway)
    (key : String) (rl : RateLimiter)
    → g.limiter ≡ some rl
    → All (IsFrom lib key) rs
    → count_past lib cfg rs g ≡ (passed rl key (times rs)).1
count_past-passed lib cfg [] g key rl l f = refl
count_past-passed lib cfg ((env, r) ∷ rest) g key rl l f =
    let (past, limiter) = handle-limiter lib cfg env r g key rl l f.0 in
    ground (
      arith,
      past,
      count_past-passed lib cfg rest (handle lib cfg env r g).2 key
          (RateLimiter.allow rl key env.limiter_time).0 limiter f.1,
    )

-- Of the requests of one client (none of them a preflight) that come in one window, the first of them
-- when the client has no window open, as many get past the rate limiter as the permit limit allows,
-- whatever their paths, tokens and upstreams. (The limit is positive.)
pub count_past-limit :
    (lib : Library) (cfg : GatewayConfig) (g : Gateway) (key : String) (rl : RateLimiter)
    (env : Arrival) (r : Request) (rest : List (Arrival × Request)) (limit : ℕ)
    → g.limiter ≡ some rl
    → rl.limit ≡ pos limit
    → 0 < limit
    → limit ≤ max_int64
    → ((bucket : Bucket) → lookup key rl.buckets ≡ some bucket → bucket.reset_at < env.limiter_time)
    → All (IsFrom lib key) ((env, r) ∷ rest)
    → All (λ t. t ≤ instant_after env.limiter_time rl.window) (times rest)
    → count_past lib cfg ((env, r) ∷ rest) g ≡ min (suc (length rest)) limit
count_past-limit lib cfg g key rl env r rest limit l e p b n f w =
    count_past-passed lib cfg ((env, r) ∷ rest) g key rl l f
    ∙ passed-new_window rl key env.limiter_time (times rest) limit n e b w
    ∙ omega (arith, length-times rest)
