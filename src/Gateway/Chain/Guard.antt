-- ===== src/Gateway/Chain/Guard.antt =====
-- Which requests get through the chain to the proxy.
use toska_mesh.Prelude.{
  String, ◌≡◌, refl, subst, ◌≢◌, ◌⊎◌, inl, inr, true, some, arith, str_eq, eq_iff, Bool-cases,
  Option-cases,
}
use toska_mesh.Gateway.Http.{header_get, Request}
use toska_mesh.Gateway.ClientIp.{client_ip_address}
use toska_mesh.Gateway.RateLimiter.{RateLimiter, allow}
use toska_mesh.Gateway.RateLimiter
use toska_mesh.Gateway.Cors
use toska_mesh.Gateway.Jwt
use toska_mesh.Gateway.Jwt.{AuthAction, serve_next, unauthorized, jwt_auth, skip_paths}
use toska_mesh.Gateway.Jwt.Skip.{Admitted, jwt_auth-Admitted}
use toska_mesh.Gateway.Proxy.{Reply, serve_http}
use toska_mesh.Gateway.Config.{GatewayConfig}
use toska_mesh.Gateway.Chain.{
  Target, to_health, to_dashboard, to_proxy, by_mux, Library, Gateway, Arrival, Body, rejected,
  proxied, serve_mux, authenticated, limited, handle,
}
use toska_mesh.Prelude.Dict.{Dict}
use toska_mesh.Gateway.Cors.{CorsAction, no_content, cors}

-- the limiter, if there is one, lets the request pass
abbrev pub Passes : Library → Arrival → Request → Gateway → Type 0
Passes lib env r g =
    (rl : RateLimiter)
    → g.limiter ≡ some rl
    → (RateLimiter.allow rl (client_ip_address lib.net r) env.limiter_time).1 ≡ true

-- the middleware for tokens lets the request pass
abbrev pub IsAdmitted : Library → GatewayConfig → Arrival → Request → Type 0
IsAdmitted lib cfg env r =
    Admitted lib.crypto cfg.jwt skip_paths env.unix_time r.path
      (header_get r.header "Authorization")

-- The proxy changes only for a request that it answers.
abbrev Kept : Gateway → Body × Gateway → Type 0
Kept g (body, g') = ((reply : Reply) → body ≢ proxied reply) → g'.proxy ≡ g.proxy

AuthAction-cases : (a : AuthAction) → (a ≡ Jwt.serve_next) ⊎ ((m : String) × (a ≡ unauthorized m))
AuthAction-cases Jwt.serve_next = inl refl
AuthAction-cases (unauthorized m) = inr (m, refl)

CorsAction-cases :
    (a : CorsAction)
    → ((h : Dict String) × (a ≡ Cors.serve_next h)) ⊎ ((h : Dict String) × (a ≡ Cors.no_content h))
CorsAction-cases (Cors.serve_next h) = inl (h, refl)
CorsAction-cases (Cors.no_content h) = inr (h, refl)

Kept-serve_mux :
    (lib : Library) (cfg : GatewayConfig) (env : Arrival) (r : Request) (g : Gateway) (t : Target)
    → lib.mux cfg.routing.route_prefix r.method r.path ≡ t
    → Kept g (serve_mux lib cfg env r g)
unfolding serve_mux
Kept-serve_mux lib cfg env r g to_health e h = rw (e, serve_mux) refl
Kept-serve_mux lib cfg env r g to_dashboard e h = rw (e, serve_mux) refl
Kept-serve_mux lib cfg env r g by_mux e h = rw (e, serve_mux) refl
Kept-serve_mux lib cfg env r g to_proxy e h =
    elim (h (serve_http env.attempts r g.proxy).0 (rw (e, serve_mux) refl)) [ ]

authenticated-proxied :
    (lib : Library) (cfg : GatewayConfig) (env : Arrival) (r : Request) (g : Gateway)
    → ((reply : Reply)
        → (authenticated lib cfg env r g).0 ≡ proxied reply
        → IsAdmitted lib cfg env r)
      × Kept g (authenticated lib cfg env r g)
unfolding authenticated
authenticated-proxied lib cfg env r g =
    let header = header_get r.header "Authorization" in
    elim (AuthAction-cases (jwt_auth lib.crypto cfg.jwt skip_paths env.unix_time r.path header)) [
      | inl e ↦ (
        λ reply h. jwt_auth-Admitted lib.crypto cfg.jwt skip_paths env.unix_time r.path header e,
        rw (e, authenticated) (Kept-serve_mux lib cfg env r g _ refl),
      )
      | inr (m, e) ↦ (
        λ reply h. let bad : rejected m ≡ proxied reply = rw (e, authenticated) at h in cc,
        λ h. rw (e, authenticated) refl,
      )
    ]

limited-proxied :
    (lib : Library) (cfg : GatewayConfig) (env : Arrival) (r : Request) (g : Gateway)
    → ((reply : Reply)
        → (limited lib cfg env r g).0 ≡ proxied reply
        → Passes lib env r g × IsAdmitted lib cfg env r)
      × Kept g (limited lib cfg env r g)
unfolding limited
limited-proxied lib cfg env r g = elim (Option-cases g.limiter) [
  | inl n ↦
      rw (n, limited)
        (
          λ reply h. (λ rl e. cc, (authenticated-proxied lib cfg env r g).0 reply h),
          (authenticated-proxied lib cfg env r g).1,
        )
  | inr (rl, e) ↦
      let (rl', passes) = RateLimiter.allow rl (client_ip_address lib.net r) env.limiter_time in
      let g' = record g { limiter = some rl' } in
      elim (Bool-cases passes) [
        | inl ok ↦
            rw (e, ok, limited)
              (
                λ reply h. (
                  λ rl2 same.
                      let one : rl ≡ rl2 = cc in
                      subst
                        (λ x.
                          (RateLimiter.allow x (client_ip_address lib.net r) env.limiter_time).1
                          ≡ true)
                        one ok,
                  (authenticated-proxied lib cfg env r g').0 reply h,
                ),
                (authenticated-proxied lib cfg env r g').1,
              )
        | inr full ↦ rw (e, full, limited) (λ reply h. cc, λ h. refl)
      ]
]

-- A request reaches the proxy only if it is no preflight, the rate limiter lets it pass if there is one,
-- and its path is on the skip list, no secret is configured or it carries a token that `validateJWT`
-- accepts. Any other request leaves the proxy with its breakers as it was.
pub handle-proxied :
    (lib : Library) (cfg : GatewayConfig) (env : Arrival) (r : Request) (g : Gateway)
    → ((reply : Reply)
        → (handle lib cfg env r g).1 ≡ proxied reply
        → (r.method ≢ "OPTIONS") × Passes lib env r g × IsAdmitted lib cfg env r)
      × (((reply : Reply) → (handle lib cfg env r g).1 ≢ proxied reply)
          → (handle lib cfg env r g).2.proxy ≡ g.proxy)
unfolding handle cors
handle-proxied lib cfg env r g = elim (Bool-cases (str_eq r.method "OPTIONS")) [
  | inl e ↦ rw (e, handle, cors) (λ reply h. cc, λ h. refl)
  | inr e ↦
      rw (e, handle, cors)
        (
          λ reply h.
              let (passes, admitted) = (limited-proxied lib cfg env r g).0 reply h in
              (λ m. ground (arith, eq_iff r.method "OPTIONS"), passes, admitted),
          (limited-proxied lib cfg env r g).1,
        )
]
