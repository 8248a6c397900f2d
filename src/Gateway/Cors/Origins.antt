-- ===== src/Gateway/Cors/Origins.antt =====
-- Which origins a response names.
use toska_mesh.Prelude.{
  String, ◌≡◌, ap, ◌∙◌, Bool, true, false, not, ◌||◌, Option, none, some, arith, str_eq,
  if◌then◌else◌,
}
use toska_mesh.Prelude.Dict.{Dict, lookup, insert, lookup-insert}
use toska_mesh.Gateway.Cors.{
  CorsConfig, join, origin_allowed, allow_headers, cors_headers, CorsAction, no_content, serve_next,
  cors,
}

abbrev pub headers_of : CorsAction → Dict String
headers_of (no_content h) = h
headers_of (serve_next h) = h

-- the value of the header `Access-Control-Allow-Origin`
abbrev pub named_origin : CorsConfig → String → Option String
named_origin cfg origin =
    if str_eq origin "" || not (origin_allowed cfg origin)
    then none
    else some (if cfg.allow_any_origin then "*" else origin)

headers_of-cors :
    (cfg : CorsConfig) (method origin : String) (h : Dict String)
    → headers_of (cors cfg method origin h) ≡ cors_headers cfg origin h
unfolding cors
headers_of-cors cfg method origin h = ground arith

origin_header :
    (anything : Bool) (a b origin : String) (h : Dict String)
    → let h1 =
        if anything
        then insert "Access-Control-Allow-Origin" "*" h
        else insert "Vary" "Origin" (insert "Access-Control-Allow-Origin" origin h) in
      lookup "Access-Control-Allow-Origin"
        (insert "Access-Control-Allow-Headers" a (insert "Access-Control-Allow-Methods" b h1))
      ≡ some (if anything then "*" else origin)
origin_header true a b origin h = simp lookup-insert
origin_header false a b origin h = simp lookup-insert

-- Of a response that had no such header, `Access-Control-Allow-Origin` is "*" if any origin is
-- allowed, else the origin of the request if it is allowed; a request without an origin, or with one
-- that is not allowed, gets none. So it is for preflights and for all other methods.
pub cors-allow_origin :
    (cfg : CorsConfig) (method origin : String) (h : Dict String)
    → lookup "Access-Control-Allow-Origin" h ≡ none
    → lookup "Access-Control-Allow-Origin" (headers_of (cors cfg method origin h))
      ≡ named_origin cfg origin
unfolding cors_headers allow_headers
cors-allow_origin cfg method origin h e =
    ap (lookup "Access-Control-Allow-Origin") (headers_of-cors cfg method origin h)
    ∙ ground (
      arith,
      e,
      origin_header cfg.allow_any_origin (join ", " cfg.allowed_headers)
          (join ", " cfg.allowed_methods) origin h,
    )
