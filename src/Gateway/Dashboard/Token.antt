-- ===== src/Gateway/Dashboard/Token.antt =====
-- internal/gateway/dashboard.go: `signServiceToken`. Base64 without padding, HMAC-SHA256, the JSON encoder
-- and the format of the time are arguments, with the laws that the token's readers rely on.
use text.Mathlib.TextLemmas.{append_assoc}
use toska_mesh.Prelude.{
  ℕ, ◌+◌, ◌≤◌, String, ◌≡◌, refl, ◌↔◌, ◌⊎◌, Bool, true, false, none, some, [], ◌∷◌, arith, str_eq,
  eq_iff,
}
use toska_mesh.Prelude.Int.{ℤ, pos}
use toska_mesh.Prelude.Dict.{Dict, lookup}
use toska_mesh.Prelude.Text.{◌+ₛ◌, split}
use toska_mesh.Prelude.Cut.{Avoids, split-dots}
use toska_mesh.Gateway.Jwt.{
  JwtConfig, Claims, Crypto, check_claims, claims_of, validate_parts, validate_jwt,
}

-- a value of a `map[string]any` of claims
pub data ClaimValue : Type 0 where
  claim_text : String → ClaimValue
  claim_number : ℤ → ClaimValue

-- Encoders, and the clock's text in the format "20060102150405".
pub record Signer : Type 0 where
  pub encode : String → String
  pub sign : String → String → String
  pub marshal : Dict ClaimValue → String
  pub format_jti : ℕ → String

-- the claims at the Unix time `now`
unfoldable pub service_claims : Signer → ℕ → Dict ClaimValue
service_claims s now =
    ("sub", claim_text "gateway")
    ∷ ("http://schemas.xmlsoap.org/ws/2005/05/identity/claims/nameidentifier", claim_text "gateway")
    ∷ ("http://schemas.xmlsoap.org/ws/2005/05/identity/claims/name", claim_text "gateway")
    ∷ ("service_id", claim_text "gateway")
    ∷ ("http://schemas.microsoft.com/ws/2008/06/identity/claims/role", claim_text "Service")
    ∷ ("jti", claim_text (s.format_jti now))
    ∷ ("iat", claim_number (pos now))
    ∷ ("exp", claim_number (pos (now + 600)))
    ∷ ("iss", claim_text "ToskaMesh.Services")
    ∷ ("aud", claim_text "ToskaMesh.Services")
    ∷ []

abbrev pub token_header : String
token_header = "{\"alg\":\"HS256\",\"typ\":\"JWT\"}"

-- `signingInput`
unfoldable pub signing_input : Signer → ℕ → String
signing_input s now = s.encode token_header +ₛ "." +ₛ s.encode (s.marshal (service_claims s now))

-- `signServiceToken`
unfoldable pub sign_service_token : Signer → String → ℕ → String
sign_service_token s secret now = signing_input s now +ₛ "." +ₛ s.sign secret (signing_input s now)

-- a claim that is a text, empty if there is none
abbrev pub text_claim : String → Dict ClaimValue → String
text_claim k claims = elim (lookup k claims) [
  | none ↦ ""
  | some v ↦ elim v [ claim_text t ↦ t | claim_number n ↦ "" ]
]

abbrev pub number_claim : String → Dict ClaimValue → ℤ
number_claim k claims = elim (lookup k claims) [
  | none ↦ pos 0
  | some v ↦ elim v [ claim_text t ↦ pos 0 | claim_number n ↦ n ]
]

-- What `validateJWT` reads of claims that were marshalled.
unfoldable pub read_claims : Dict ClaimValue → Claims
read_claims claims = record {
  exp = number_claim "exp" claims;
  iss = text_claim "iss" claims;
  aud = text_claim "aud" claims;
}

-- The signer and the reader of tokens use the same encodings: both signatures are the same function, base64
-- text decodes to what was encoded and holds no "." (nor does a signature), and the JSON text of the
-- claims is read back.
pub record IsMatching (s : Signer) (c : Crypto) : Type 0 where
  pub same_sign : (secret input : String) → c.sign secret input ≡ s.sign secret input
  pub decode_encode : (t : String) → c.decode (s.encode t) ≡ some t
  pub unmarshal_marshal :
      (now : ℕ)
      → c.unmarshal (s.marshal (service_claims s now)) ≡ some (read_claims (service_claims s now))
  pub encode_dotless : (t : String) → Avoids b'.' (s.encode t)
  pub sign_dotless : (secret input : String) → Avoids b'.' (s.sign secret input)

-- a claim is not checked
abbrev pub Unchecked : Bool → String → Type 0
Unchecked check expected = (check ≡ false) ⊎ (expected ≡ "")

sign_service_token-shape :
    (s : Signer) (secret : String) (now : ℕ)
    → sign_service_token s secret now
      ≡ s.encode token_header
        +ₛ ("."
            +ₛ (s.encode (s.marshal (service_claims s now))
                +ₛ ("." +ₛ s.sign secret (signing_input s now))))
unfolding sign_service_token signing_input
sign_service_token-shape s secret now = simp append_assoc

sign_service_token-split :
    (s : Signer) (c : Crypto) (secret : String) (now : ℕ)
    → IsMatching s c
    → split b'.' (sign_service_token s secret now)
      ≡ s.encode token_header
        ∷ s.encode (s.marshal (service_claims s now))
        ∷ s.sign secret (signing_input s now)
        ∷ []
sign_service_token-split s c secret now m = rw (sign_service_token-shape s secret now) (
    split-dots (s.encode token_header) (s.encode (s.marshal (service_claims s now)))
      (s.sign secret (signing_input s now)) (m.encode_dotless _) (m.encode_dotless _)
      (m.sign_dotless secret _))

-- the claims of a service token, as they are read
abbrev read_service_claims : ℕ → Claims
read_service_claims issued = record {
  exp = pos (issued + 600);
  iss = "ToskaMesh.Services";
  aud = "ToskaMesh.Services";
}

read-service_claims :
    (s : Signer) (issued : ℕ) → read_claims (service_claims s issued) ≡ read_service_claims issued
unfolding read_claims service_claims lookup
read-service_claims s issued = refl

sign_service_token-check_claims :
    (s : Signer) (c : Crypto) (cfg : JwtConfig) (issued now : ℕ)
    → IsMatching s c
    → validate_jwt c cfg (pos now) (sign_service_token s cfg.secret_key issued)
      ≡ check_claims cfg (pos now) (read_service_claims issued)
unfolding validate_jwt validate_parts claims_of signing_input
sign_service_token-check_claims s c cfg issued now m =
    let claims = service_claims s issued in
    let input = signing_input s issued in
    let good : str_eq (c.sign cfg.secret_key input) (s.sign cfg.secret_key input) ≡ true =
      (eq_iff _ _).1 (m.same_sign cfg.secret_key input) in
    rw (sign_service_token-split s c cfg.secret_key issued m, validate_jwt, validate_parts)
      (ground (
        arith,
        good,
        m.decode_encode (s.marshal claims),
        m.unmarshal_marshal issued,
        read-service_claims s issued,
      ))

check_claims-service :
    (cfg : JwtConfig) (issued now : ℕ)
    → (check_claims cfg (pos now) (read_service_claims issued) ≡ none) ↔ (
        (now ≤ issued + 600)
        × (Unchecked cfg.validate_issuer cfg.issuer ⊎ (cfg.issuer ≡ "ToskaMesh.Services"))
        × (Unchecked cfg.validate_audience cfg.audience ⊎ (cfg.audience ≡ "ToskaMesh.Services")))
unfolding check_claims
check_claims-service cfg issued now = ground (
  arith,
  eq_iff cfg.issuer "",
  eq_iff cfg.audience "",
  eq_iff "ToskaMesh.Services" cfg.issuer,
  eq_iff "ToskaMesh.Services" cfg.audience,
)

-- A token that the dashboard signs passes `validateJWT` with the same secret just when at most ten
-- minutes have gone since its issue, and issuer and audience are either not checked or checked against
-- "ToskaMesh.Services".
pub sign_service_token-validate_jwt :
    (s : Signer) (c : Crypto) (cfg : JwtConfig) (issued now : ℕ)
    → IsMatching s c
    → (validate_jwt c cfg (pos now) (sign_service_token s cfg.secret_key issued) ≡ none) ↔ (
        (now ≤ issued + 600)
        × (Unchecked cfg.validate_issuer cfg.issuer ⊎ (cfg.issuer ≡ "ToskaMesh.Services"))
        × (Unchecked cfg.validate_audience cfg.audience ⊎ (cfg.audience ≡ "ToskaMesh.Services")))
sign_service_token-validate_jwt s c cfg issued now m =
    rw (sign_service_token-check_claims s c cfg issued now m) (check_claims-service cfg issued now)
