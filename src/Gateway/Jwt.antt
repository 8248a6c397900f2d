-- ===== src/Gateway/Jwt.antt =====
-- internal/gateway/middleware.go and config.go: the JWT middleware. HMAC-SHA256, base64 and the JSON
-- decoder are arguments.
pub mod Validation
pub mod Skip
use toska_mesh.Prelude.{
  String, Bool, not, ◌&&◌, ◌||◌, Option, none, some, List, [], ◌∷◌, str_eq, if◌then◌else◌, any,
}
use toska_mesh.Prelude.Int.{ℤ, pos, ltb_ℤ}
use toska_mesh.Prelude.Text.{◌+ₛ◌, strip_prefix, has_prefix, split}

pub record JwtConfig : Type 0 where
  pub secret_key : String
  pub issuer : String
  pub audience : String
  pub validate_issuer : Bool
  pub validate_audience : Bool

pub record Claims : Type 0 where
  pub exp : ℤ
  pub iss : String
  pub aud : String

-- `jwtError`
pub data JwtError : Type 0 where
  invalid_token invalid_signature token_expired invalid_issuer invalid_audience : JwtError

-- `e.Error()`
unfoldable pub error_text : JwtError → String
error_text invalid_token = "invalid token format"
error_text invalid_signature = "invalid signature"
error_text token_expired = "token expired"
error_text invalid_issuer = "invalid issuer"
error_text invalid_audience = "invalid audience"

-- What the middleware takes from Go's library: `sign secret input` is the base64 text of the
-- HMAC-SHA256, `decode_claims` decodes base64 (`none` for an error) and `unmarshal` reads the claims.
pub record Crypto : Type 0 where
  pub sign : String → String → String
  pub decode : String → Option String
  pub unmarshal : String → Option Claims

-- the checks of the claims, at the Unix time `now`
unfoldable pub check_claims : JwtConfig → ℤ → Claims → Option JwtError
check_claims cfg now claims =
    if ltb_ℤ (pos 0) claims.exp && ltb_ℤ claims.exp now
    then some token_expired
    else if cfg.validate_issuer && not (str_eq cfg.issuer "") && not (str_eq claims.iss cfg.issuer)
    then some invalid_issuer
    else if cfg.validate_audience
        && not (str_eq cfg.audience "")
        && not (str_eq claims.aud cfg.audience)
    then some invalid_audience
    else none

-- the claims in the second part of a token
unfoldable pub claims_of : Crypto → String → Option Claims
claims_of c payload = elim (c.decode payload) [ none ↦ none | some json ↦ c.unmarshal json ]

-- `validateJWT` on the parts of `strings.Split(tokenStr, ".")`
unfoldable pub validate_parts : Crypto → JwtConfig → ℤ → List String → Option JwtError
validate_parts c cfg now (header ∷ payload ∷ signature ∷ []) =
    if str_eq (c.sign cfg.secret_key (header +ₛ "." +ₛ payload)) signature
    then elim (claims_of c payload) [
      | none ↦ some invalid_token
      | some claims ↦ check_claims cfg now claims
    ]
    else some invalid_signature
validate_parts c cfg now _ = some invalid_token

-- `validateJWT`: nil or an error
unfoldable pub validate_jwt : Crypto → JwtConfig → ℤ → String → Option JwtError
unfolding validate_parts
validate_jwt c cfg now token = validate_parts c cfg now (split b'.' token)

-- What the middleware does with a request.
pub data AuthAction : Type 0 where
  serve_next : AuthAction
  unauthorized : String → AuthAction

-- the check of the header `Authorization`
unfoldable pub check_header : Crypto → JwtConfig → ℤ → String → AuthAction
check_header c cfg now header = elim (strip_prefix "Bearer " header) [
  | none ↦ unauthorized "missing or invalid authorization header"
  | some token ↦ elim (validate_jwt c cfg now token) [
    | some e ↦ unauthorized ("invalid token: " +ₛ error_text e)
    | none ↦ serve_next
  ]
]

-- `JWTAuth`, for a request with the given path and `Authorization`
unfoldable pub jwt_auth : Crypto → JwtConfig → List String → ℤ → String → String → AuthAction
jwt_auth c cfg skip_paths now path header =
    if any (λ p. has_prefix path p) skip_paths || str_eq cfg.secret_key ""
    then serve_next
    else check_header c cfg now header

-- the list that `cmd/gateway` passes
abbrev pub skip_paths : List String
skip_paths = "/health" ∷ "/api/dashboard/" ∷ []
