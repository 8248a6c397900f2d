-- ===== src/Gateway/Jwt/Skip.antt =====
-- Which requests pass the middleware.
use toska_mesh.Prelude.{
  String, ◌≡◌, ◌⊎◌, inl, inr, true, none, List, str_eq, eq_iff, Bool-cases, Option-cases, any,
}
use toska_mesh.Prelude.Int.{ℤ}
use toska_mesh.Prelude.Text.{◌+ₛ◌, strip_prefix, has_prefix, strip_prefix-eq}
use toska_mesh.Gateway.Jwt.{JwtConfig, Crypto, validate_jwt, serve_next, check_header, jwt_auth}

-- the ways in which a request may pass
abbrev pub Admitted : Crypto → JwtConfig → List String → ℤ → String → String → Type 0
Admitted c cfg skip now path header =
    (any (λ p. has_prefix path p) skip ≡ true)
    ⊎ (cfg.secret_key ≡ "")
    ⊎ ((token : String) × (header ≡ "Bearer " +ₛ token) × (validate_jwt c cfg now token ≡ none))

checked :
    (c : Crypto) (cfg : JwtConfig) (now : ℤ) (header : String)
    → check_header c cfg now header ≡ serve_next
    → (token : String) × (header ≡ "Bearer " +ₛ token) × (validate_jwt c cfg now token ≡ none)
unfolding check_header
checked c cfg now header h = elim (Option-cases (strip_prefix "Bearer " header)) [
  | inl n ↦ let bad = rw (n, check_header) at h in cc
  | inr (token, e) ↦ elim (Option-cases (validate_jwt c cfg now token)) [
    | inl v ↦ (token, strip_prefix-eq "Bearer " header token e, v)
    | inr (x, v) ↦ let bad = rw (e, v, check_header) at h in cc
  ]
]

-- A request that the middleware lets through has a path on the skip list, or no secret is configured,
-- or its header is "Bearer " and a token that `validateJWT` accepts.
pub jwt_auth-Admitted :
    (c : Crypto) (cfg : JwtConfig) (skip : List String) (now : ℤ) (path header : String)
    → jwt_auth c cfg skip now path header ≡ serve_next
    → Admitted c cfg skip now path header
unfolding jwt_auth
jwt_auth-Admitted c cfg skip now path header h =
    elim (Bool-cases (any (λ p. has_prefix path p) skip)) [
      | inl s ↦ inl s
      | inr s ↦ elim (Bool-cases (str_eq cfg.secret_key "")) [
        | inl k ↦ inr (inl ((eq_iff cfg.secret_key "").0 k))
        | inr k ↦ inr (inr (checked c cfg now header (rw (s, k, jwt_auth) at h)))
      ]
    ]
