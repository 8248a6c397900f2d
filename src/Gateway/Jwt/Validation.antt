-- ===== src/Gateway/Jwt/Validation.antt =====
-- Which tokens are accepted.
use toska_mesh.Prelude.{
  String, ◌≡◌, refl, sym, ap, ◌≢◌, ◌↔◌, inl, inr, true, Option, none, some, List, [], ◌∷◌, arith,
  str_eq, eq_iff, eq_refl, Bool-cases,
}
use toska_mesh.Prelude.Int.{ℤ, pos, ◌≤ℤ◌, ◌<ℤ◌}
use toska_mesh.Prelude.Text.{◌+ₛ◌, split}
use toska_mesh.Gateway.Jwt.{
  JwtConfig, Claims, invalid_signature, Crypto, check_claims, claims_of, validate_parts,
  validate_jwt,
}

-- The claims are not expired, and name the issuer and the audience that are asked for.
abbrev pub Fresh : JwtConfig → ℤ → Claims → Type 0
Fresh cfg now claims =
    (pos 0 <ℤ claims.exp → now ≤ℤ claims.exp)
    × (cfg.validate_issuer ≡ true → cfg.issuer ≢ "" → claims.iss ≡ cfg.issuer)
    × (cfg.validate_audience ≡ true → cfg.audience ≢ "" → claims.aud ≡ cfg.audience)

check_claims-Fresh :
    (cfg : JwtConfig) (now : ℤ) (claims : Claims)
    → check_claims cfg now claims ≡ none
    → Fresh cfg now claims
unfolding check_claims
check_claims-Fresh cfg now claims h = ground (
  arith,
  eq_iff cfg.issuer "",
  eq_iff claims.iss cfg.issuer,
  eq_iff cfg.audience "",
  eq_iff claims.aud cfg.audience,
)

Fresh-check_claims :
    (cfg : JwtConfig) (now : ℤ) (claims : Claims)
    → Fresh cfg now claims
    → check_claims cfg now claims ≡ none
unfolding check_claims
Fresh-check_claims cfg now claims h = ground (
  arith,
  eq_iff cfg.issuer "",
  eq_iff claims.iss cfg.issuer,
  eq_iff cfg.audience "",
  eq_iff claims.aud cfg.audience,
)

-- A token of three parts whose third is the signature of the first two, with claims that are fresh.
abbrev pub Accepted : Crypto → JwtConfig → ℤ → List String → Type 0
Accepted c cfg now parts =
    (header : String) × (payload : String) × (claims : Claims) × (parts
      ≡ header ∷ payload ∷ c.sign cfg.secret_key (header +ₛ "." +ₛ payload) ∷ [])
    × (claims_of c payload ≡ some claims)
    × Fresh cfg now claims

signed_parts :
    (c : Crypto) (cfg : JwtConfig) (now : ℤ) (header payload signature : String) (o : Option Claims)
    → claims_of c payload ≡ o
    → validate_parts c cfg now (header ∷ payload ∷ signature ∷ []) ≡ none
    → Accepted c cfg now (header ∷ payload ∷ signature ∷ [])
unfolding validate_parts
signed_parts c cfg now header payload signature none e h = ground (arith, e)
signed_parts c cfg now header payload signature (some claims) e h =
    let s = c.sign cfg.secret_key (header +ₛ "." +ₛ payload) in
    elim (Bool-cases (str_eq s signature)) [
      | inl t ↦ (
        header,
        payload,
        claims,
        ap (λ z. header ∷ payload ∷ z ∷ []) (sym ((eq_iff s signature).0 t)),
        e,
        check_claims-Fresh cfg now claims (rw (t, e, validate_parts) at h),
      )
      | inr f ↦ let bad : some invalid_signature ≡ none = rw (f, validate_parts) at h in cc
    ]

parts-Accepted :
    (c : Crypto) (cfg : JwtConfig) (now : ℤ) (parts : List String)
    → validate_parts c cfg now parts ≡ none
    → Accepted c cfg now parts
unfolding validate_parts
parts-Accepted c cfg now (header ∷ payload ∷ signature ∷ []) h =
    signed_parts c cfg now header payload signature (claims_of c payload) refl h
parts-Accepted c cfg now [] h = cc
parts-Accepted c cfg now (x ∷ []) h = cc
parts-Accepted c cfg now (x ∷ y ∷ []) h = cc
parts-Accepted c cfg now (x ∷ y ∷ z ∷ w ∷ r) h = cc

Accepted-parts :
    (c : Crypto) (cfg : JwtConfig) (now : ℤ) (parts : List String)
    → Accepted c cfg now parts
    → validate_parts c cfg now parts ≡ none
unfolding validate_parts
Accepted-parts c cfg now parts (header, payload, claims, e, d, f) =
    rw (e, validate_parts, eq_refl (c.sign cfg.secret_key (header +ₛ "." +ₛ payload)), d)
      (Fresh-check_claims cfg now claims f)

-- `validateJWT` accepts a token just when it has three parts, the third is the signature of the first
-- two with the configured secret, the second decodes to claims, and these are fresh.
pub validate_jwt-Accepted :
    (c : Crypto) (cfg : JwtConfig) (now : ℤ) (token : String)
    → (validate_jwt c cfg now token ≡ none) ↔ Accepted c cfg now (split b'.' token)
unfolding validate_jwt
validate_jwt-Accepted c cfg now token =
    (parts-Accepted c cfg now (split b'.' token), Accepted-parts c cfg now (split b'.' token))
