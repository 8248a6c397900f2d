-- ===== src/Gateway/Dashboard.antt =====
-- internal/gateway/dashboard.go and config.go: the dashboard's routes, and its proxy to the observability
-- services. The HTTP client is an argument; of the request's body nothing is modelled.
pub mod Token
pub mod Catalog
mod Tests
use toska_mesh.Prelude.{
  ℕ, String, ◌≡◌, refl, not, ◌&&◌, ◌||◌, Option, none, some, List, [], ◌∷◌, arith, str_eq, eq_iff,
  if◌then◌else◌,
}
use toska_mesh.Prelude.Int.{ℤ}
use toska_mesh.Prelude.Dict.{lookup, insert, lookup-insert}
use toska_mesh.Prelude.Text.{◌+ₛ◌, strip_prefix}
use toska_mesh.Prelude.Result.{Result, ok, err}
use toska_mesh.Gateway.Http.{Header, header_get, Request}

pub record DashboardConfig : Type 0 where
  pub prometheus_base_url : String
  pub tracing_base_url : String
  pub discovery_base_url : String
  pub health_monitor_base_url : String
  pub service_auth_secret : String

-- The endpoints of `Handler` that are proxied.
pub data Endpoint : Type 0 where
  prometheus traces health : Endpoint

-- `strings.TrimPrefix(s, prefix)`
abbrev pub trim_prefix : String → String → String
trim_prefix s prefix = elim (strip_prefix prefix s) [ none ↦ s | some rest ↦ rest ]

-- the base URL and the path that the handler of an endpoint hands to `proxy`
unfoldable pub upstream_of : DashboardConfig → Endpoint → String → String × String
upstream_of cfg prometheus path =
    (cfg.prometheus_base_url, "/api/v1" +ₛ trim_prefix path "/api/dashboard/prometheus")
upstream_of cfg traces path =
    (cfg.tracing_base_url, "/api/traces" +ₛ trim_prefix path "/api/dashboard/traces")
upstream_of cfg health path = (cfg.health_monitor_base_url, "/api/status")

-- `*http.Response`
pub record DashResponse : Type 0 where
  pub status_code : ℤ
  pub header : Header
  pub body : List ℕ

-- The HTTP client: `refuse_request` is the error of `http.NewRequest` for a method and a URL, `client_do`
-- what the request with these headers returns.
pub record Client : Type 0 where
  pub refuse_request : String → String → Option String
  pub client_do : String → String → Header → Result DashResponse

-- What the client of the dashboard receives.
pub data DashReply : Type 0 where
  bad_request : DashReply
  upstream_unavailable : DashReply
  passed : DashResponse → DashReply

-- `targetURL`
unfoldable pub target_url : Request → String → String → String
target_url r base path =
    let url = base +ₛ path in if str_eq r.raw_query "" then url else url +ₛ "?" +ₛ r.raw_query

-- `if v := r.Header.Get(name); v != "" { req.Header.Set(name, v) }`
abbrev pub forward_header : Header → String → Header → Header
forward_header h name out =
    let v = header_get h name in if str_eq v "" then out else insert name (v ∷ []) out

-- the headers of the request that goes out; `token` is what `signServiceToken` gives
unfoldable pub forward_headers : DashboardConfig → Header → String → Header
forward_headers cfg h token =
    let out = forward_header h "Accept" (forward_header h "Content-Type" []) in
    if str_eq cfg.service_auth_secret ""
    then out
    else insert "Authorization" (("Bearer " +ₛ token) ∷ []) out

-- `proxy`
unfoldable pub proxy : Client → DashboardConfig → Request → String → String × String → DashReply
proxy client cfg r token (base, path) =
    let url = target_url r base path in
    elim (client.refuse_request r.method url) [
      | some e ↦ bad_request
      | none ↦ elim (client.client_do r.method url (forward_headers cfg r.header token)) [
        | err e ↦ upstream_unavailable
        | ok resp ↦ passed resp
      ]
    ]

-- the header that goes out, if it is one of the two that are forwarded
abbrev pub forwarded : Header → String → Option (List String)
forwarded h name =
    if (str_eq "Content-Type" name || str_eq "Accept" name) && not (str_eq (header_get h name) "")
    then some (header_get h name ∷ [])
    else none

lookup_nil : (name : String) → lookup {V = List String} name [] ≡ none
unfolding lookup
lookup_nil name = refl

forward_header-lookup :
    (h : Header) (name : String) (out : Header) (other : String)
    → lookup other (forward_header h name out) ≡ (
        if str_eq name other && not (str_eq (header_get h name) "")
        then some (header_get h name ∷ [])
        else lookup other out)
forward_header-lookup h name out other =
    ground (arith, lookup-insert name other (header_get h name ∷ []) out)

-- Of the client's headers the dashboard forwards "Content-Type" and "Accept", each with its first value,
-- and no other; in particular not its "Authorization", which is the service token if a secret is
-- configured and is left out else.
pub forward_headers-lookup :
    (cfg : DashboardConfig) (h : Header) (token name : String)
    → lookup name (forward_headers cfg h token) ≡ (
        if str_eq "Authorization" name && not (str_eq cfg.service_auth_secret "")
        then some (("Bearer " +ₛ token) ∷ [])
        else forwarded h name)
unfolding forward_headers
forward_headers-lookup cfg h token name =
    let one = forward_header h "Content-Type" [] in
    let two = forward_header h "Accept" one in
    ground (
      arith,
      lookup-insert "Authorization" name (("Bearer " +ₛ token) ∷ []) two,
      forward_header-lookup h "Accept" one name,
      forward_header-lookup h "Content-Type" [] name,
      eq_iff "Content-Type" name,
      eq_iff "Accept" name,
      lookup_nil name,
    )
