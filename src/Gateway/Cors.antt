-- ===== src/Gateway/Cors.antt =====
-- internal/gateway/middleware.go and config.go: the CORS middleware. The response headers set by the
-- middleware are a map from name to value; the next handler is an argument.
pub mod Origins
use toska_mesh.Prelude.{
  ◌*◌, String, Bool, not, ◌||◌, List, [], ◌∷◌, str_eq, if◌then◌else◌, null, any,
}
use toska_mesh.Prelude.Dict.{Dict, insert}
use toska_mesh.Prelude.Text.{◌+ₛ◌, equal_fold}

pub record CorsConfig : Type 0 where
  pub allow_any_origin : Bool
  pub allowed_origins : List String
  pub allowed_headers : List String
  pub allowed_methods : List String

-- `strings.Join(xs, sep)`
unfoldable pub join : String → List String → String
join sep [] = ""
join sep (x ∷ []) = x
join sep (x ∷ y ∷ xs) = x +ₛ sep +ₛ join sep (y ∷ xs)

-- `allowed`, for an origin that is not empty
unfoldable pub origin_allowed : CorsConfig → String → Bool
origin_allowed cfg origin =
    cfg.allow_any_origin
    || null cfg.allowed_origins
    || any (λ o. equal_fold o origin) cfg.allowed_origins

-- the headers of an origin that is allowed
unfoldable pub allow_headers : CorsConfig → String → Dict String → Dict String
allow_headers cfg origin h =
    let h1 =
      if cfg.allow_any_origin
      then insert "Access-Control-Allow-Origin" "*" h
      else insert "Vary" "Origin" (insert "Access-Control-Allow-Origin" origin h) in
    insert "Access-Control-Allow-Headers" (join ", " cfg.allowed_headers)
      (insert "Access-Control-Allow-Methods" (join ", " cfg.allowed_methods) h1)

-- the headers that the middleware sets before it hands the request on
unfoldable pub cors_headers : CorsConfig → String → Dict String → Dict String
cors_headers cfg origin h =
    if str_eq origin "" || not (origin_allowed cfg origin) then h else allow_headers cfg origin h

-- What the middleware does with a request: it answers a preflight itself.
pub data CorsAction : Type 0 where
  no_content : Dict String → CorsAction
  serve_next : Dict String → CorsAction

-- `CORS`, for a request with the given method and `Origin`
unfoldable pub cors : CorsConfig → String → String → Dict String → CorsAction
cors cfg method origin h =
    let h' = cors_headers cfg origin h in
    if str_eq method "OPTIONS" then no_content h' else serve_next h'
