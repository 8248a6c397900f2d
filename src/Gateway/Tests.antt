-- ===== src/Gateway/Tests.antt =====
-- Runs of the gateway at concrete inputs.
use Prim.Native.Nat.{min, max}
use toska_mesh.Prelude.{
  ℕ, suc, ◌<◌, String, ◌≡◌, refl, ◌↔◌, true, none, some, List, [], ◌∷◌, arith, length,
}
use toska_mesh.Prelude.Int.{pos}
use toska_mesh.Prelude.Dict.{lookup, HasDistinctKeys}
use toska_mesh.Prelude.Text.{◌+ₛ◌, strip_prefix, has_prefix, split}
use toska_mesh.Gateway.RateLimiter.{Bucket, RateLimiter, evict}
use toska_mesh.Gateway.RateLimiter.Window.{passed, passed-new_window}
use toska_mesh.Gateway.RateLimiter.Evict.{answers, answers-evict}
use toska_mesh.Gateway.Jwt.{
  JwtConfig, Crypto, check_claims, claims_of, validate_jwt, serve_next, check_header, jwt_auth,
  skip_paths,
}
use toska_mesh.Gateway.Jwt.Validation.{Accepted, validate_jwt-Accepted}

abbrev limiter : RateLimiter
limiter = record { buckets = []; limit = pos 2; window = pos 60 }

abbrev used : RateLimiter
used = record {
  buckets =
      ("10.0.0.1", record { count = pos 2; reset_at = 70 })
      ∷ ("10.0.0.2", record { count = pos 1; reset_at = 90 })
      ∷ [];
  limit = pos 2;
  window = pos 60;
}

no_bucket :
    (bucket : Bucket) → lookup "10.0.0.1" limiter.buckets ≡ some bucket → bucket.reset_at < 10
unfolding lookup
no_bucket bucket h = cc

abbrev instants : List ℕ
instants = 20 ∷ 30 ∷ 70 ∷ []

passed-new_window_example :
    (passed limiter "10.0.0.1" (10 ∷ instants)).1 ≡ min (suc (length instants)) (max 1 2)
passed-new_window_example =
    passed-new_window limiter "10.0.0.1" 10 instants 2 no_bucket refl (omega arith) (ground arith)

used-HasDistinctKeys : HasDistinctKeys used.buckets
unfolding lookup
used-HasDistinctKeys = (refl, (refl, tt))

abbrev requests : List (String × ℕ)
requests = ("10.0.0.1", 85) ∷ ("10.0.0.2", 88) ∷ []

answers-evict_example : answers (evict used 80) requests ≡ answers used requests
answers-evict_example = answers-evict used 80 requests used-HasDistinctKeys (ground arith)

-- A signature that only shows the secret, and no encoding.
abbrev plain : Crypto
plain = record {
  sign = λ secret text. secret +ₛ "-signed";
  decode = λ text. some text;
  unmarshal = λ text. some (record { exp = pos 500; iss = "mesh"; aud = "" });
}

abbrev jwt_config : JwtConfig
jwt_config = record {
  secret_key = "key";
  issuer = "mesh";
  audience = "";
  validate_issuer = true;
  validate_audience = true;
}

validate_jwt-Accepted_example :
    (validate_jwt plain jwt_config (pos 400) "h.p.key-signed" ≡ none)
    ↔ Accepted plain jwt_config (pos 400) (split b'.' "h.p.key-signed")
validate_jwt-Accepted_example = validate_jwt-Accepted plain jwt_config (pos 400) "h.p.key-signed"

let_through :
    jwt_auth plain jwt_config skip_paths (pos 400) "/api/x" "Bearer h.p.key-signed" ≡ serve_next
unfolding jwt_auth check_header strip_prefix validate_jwt split check_claims claims_of has_prefix
let_through = refl
