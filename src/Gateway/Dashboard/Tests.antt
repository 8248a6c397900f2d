-- ===== src/Gateway/Dashboard/Tests.antt =====
-- The dashboard at concrete inputs.
use toska_mesh.Prelude.{
  ℕ, zero, suc, ◌+◌, ◌≤◌, String, ◌≡◌, refl, ◌↔◌, ◌⊎◌, Bool, true, false, Option, none, some, List,
  [], ◌∷◌, arith, str_eq, ◌==◌, if◌then◌else◌, In,
}
use toska_mesh.Prelude.Int.{pos, pos_part}
use toska_mesh.Prelude.Dict.{lookup, insert}
use Prim.Native.Char.{Char, char, code}
use Prim.Native.String.{[] as nil, ◌∷◌ as cons}
use text.Mathlib.TextEquality.{Char-path}
use toska_mesh.Types.{healthy}
use toska_mesh.Consul.{Instance, Agent, Registry, get_instances, get_services}
use toska_mesh.Prelude.Result.{ok, err}
use toska_mesh.Gateway.Dashboard.Catalog.Partial.{IsItemOf, IsReadOnly, handle_services-partial}
use toska_mesh.Gateway.Dashboard.Catalog.{
  CatalogItem, values_at, add_metadata, collect, key_summary, key_summaries, handle_services,
}
use toska_mesh.Gateway.Dashboard.Catalog.Summary.{IsSummary, key_summaries-IsSummary}
use toska_mesh.Prelude.Cut.{Avoids}
use toska_mesh.Prelude.Order.{sort_by, IsAscending}
use toska_mesh.Gateway.Jwt.{JwtConfig, Crypto, validate_jwt}
use toska_mesh.Gateway.Dashboard.Token.{
  Signer, service_claims, sign_service_token, number_claim, read_claims, IsMatching, Unchecked,
  sign_service_token-validate_jwt,
}

abbrev instance_with : String → Instance
instance_with zone = record {
  service_name = "orders";
  service_id = "orders-1";
  address = "10.0.0.1";
  port = pos 8080;
  status = healthy;
  metadata = ("zone", zone) ∷ ("tier", "1") ∷ [];
  registered_at = 0;
  last_health_check = 0;
}

abbrev instances : List Instance
instances = instance_with "us" ∷ instance_with "eu" ∷ []

key_summaries-IsSummary_example : IsSummary instances (key_summaries instances)
key_summaries-IsSummary_example = key_summaries-IsSummary instances

-- both instances have the key "tier", with one value
one_value :
    key_summaries instances
    ≡ record { key = "tier"; instance_count = 1; values = "1" ∷ [] }
      ∷ record { key = "zone"; instance_count = 2; values = "eu" ∷ "us" ∷ [] }
      ∷ []
unfolding key_summaries key_summary sort_by collect add_metadata values_at lookup insert
one_value = refl

-- An encoding without dots: "." is written "-d" and "-" is written "--".
abbrev dash : Char
dash = char b'-' (ground arith)

abbrev letter_d : Char
letter_d = char b'd' (ground arith)

abbrev dot : Char
dot = char b'.' (ground arith)

escape : String → String
escape nil = nil
escape (cons c s) =
    let rest = escape s in
    if code c == b'.'
    then cons dash (cons letter_d rest)
    else if code c == b'-'
    then cons dash (cons dash rest)
    else cons c rest

abbrev put_first : Char → Option String → Option String
put_first c none = none
put_first c (some s) = some (cons c s)

-- the flag: a "-" has just been read
unescape : Bool → String → Option String
unescape false nil = some nil
unescape true nil = none
unescape false (cons c s) =
    let plain = unescape false s in
    let escaped = unescape true s in if code c == b'-' then escaped else put_first c plain
unescape true (cons c s) =
    let rest = unescape false s in
    if code c == b'd' then put_first dot rest else put_first dash rest

unescape-escape : (s : String) → unescape false (escape s) ≡ some s
unfolding unescape escape
unescape-escape nil = refl
unescape-escape (cons c s) = ground (
  arith,
  unescape-escape s,
  λ (h : code c ≡ b'.'). Char-path c dot h,
  λ (h : code c ≡ b'-'). Char-path c dash h,
)

escape-dotless : (s : String) → Avoids b'.' (escape s)
unfolding escape
escape-dotless nil = tt
escape-dotless (cons c s) = ground (arith, escape-dotless s)

unary : ℕ → String
unary zero = nil
unary (suc n) = cons dash (unary n)

count : String → ℕ
count nil = 0
count (cons c s) = suc (count s)

count-unary : (n : ℕ) → count (unary n) ≡ n
unfolding count unary
count-unary zero = refl
count-unary (suc n) = ground (arith, count-unary n)

-- the claims are written as the second of their expiry
abbrev signer : Signer
signer = record {
  encode = escape;
  sign = λ secret input. escape secret;
  marshal = λ claims. unary (pos_part (number_claim "exp" claims));
  format_jti = λ now. "1";
}

abbrev crypto : Crypto
crypto = record {
  sign = λ secret input. escape secret;
  decode = unescape false;
  unmarshal = λ t.
      some (record { exp = pos (count t); iss = "ToskaMesh.Services"; aud = "ToskaMesh.Services" });
}

read_back :
    (now : ℕ)
    → crypto.unmarshal (signer.marshal (service_claims signer now))
      ≡ some (read_claims (service_claims signer now))
unfolding service_claims read_claims lookup
read_back now = rw (count-unary (now + 600)) refl

signer-IsMatching : IsMatching signer crypto
signer-IsMatching = record {
  same_sign = λ secret input. refl;
  decode_encode = unescape-escape;
  unmarshal_marshal = read_back;
  encode_dotless = escape-dotless;
  sign_dotless = λ secret input. escape-dotless secret;
}

abbrev jwt_config : JwtConfig
jwt_config = record {
  secret_key = "s3cret";
  issuer = "ToskaMesh.Services";
  audience = "";
  validate_issuer = true;
  validate_audience = true;
}

sign_service_token-validate_jwt_example :
    (validate_jwt crypto jwt_config (pos 700) (sign_service_token signer jwt_config.secret_key 500)
      ≡ none)
    ↔ ((700 ≤ 500 + 600)
        × (Unchecked jwt_config.validate_issuer jwt_config.issuer
            ⊎ (jwt_config.issuer ≡ "ToskaMesh.Services"))
        × (Unchecked jwt_config.validate_audience jwt_config.audience
            ⊎ (jwt_config.audience ≡ "ToskaMesh.Services")))
sign_service_token-validate_jwt_example =
    sign_service_token-validate_jwt signer crypto jwt_config 500 700 signer-IsMatching

-- Consul lists three services, and the instances of one of them cannot be listed.
abbrev partial_agent : Agent
partial_agent = record {
  State = Unit;
  service_register = λ reg s. (none, s);
  service_deregister = λ id s. (none, s);
  pass_ttl = λ id output s. (none, s);
  fail_ttl = λ id output s. (none, s);
  warn_ttl = λ id output s. (none, s);
  health_service = λ name s. (if str_eq name "orders" then err "timeout" else ok [], s);
  catalog_services = λ s. (ok ("users" ∷ "orders" ∷ "billing" ∷ []), s);
  agent_service = λ id s. (ok none, s);
}

abbrev empty_registry : Registry
empty_registry = record { registration_times = [] }

abbrev listed_services : List String
listed_services = "users" ∷ "orders" ∷ "billing" ∷ []

read_only : IsReadOnly partial_agent empty_registry tt
unfolding get_services get_instances
read_only = (refl, λ name. refl)

handle_services-partial_example :
    (items : List CatalogItem) × ((handle_services partial_agent unary 7 empty_registry tt).0
      ≡ ok items)
    × IsAscending (λ (item : CatalogItem). item.service_name) items
    × ((item : CatalogItem)
        → In item items
          ↔ IsItemOf partial_agent unary (unary 7) empty_registry tt listed_services item)
unfolding get_services
handle_services-partial_example =
    handle_services-partial partial_agent unary empty_registry tt 7 listed_services read_only refl
