-- ===== src/Gateway/Routes/Paths.antt =====
-- The route prefix and the split of a request's path.
use Prim.Native.Char.{Char}
use text.Mathlib.TextLemmas.{cons-append}
use Prim.Native.String.{◌∷◌ as cons, [] as nil}
use toska_mesh.Prelude.{
  String, ◌≡◌, refl, sym, ap, ◌∙◌, subst, ◌⊎◌, inl, inr, true, none, some, arith, str_eq, eq_iff,
  Bool-cases, Option-cases,
}
use toska_mesh.Prelude.Text.{
  ◌+ₛ◌, strip_prefix, has_prefix, ends_with, cut_before, strip_prefix-append, strip_prefix-eq,
  has_prefix-append,
}
use toska_mesh.Prelude.Cut.{
  Avoids, ends_with-append, cut_before-parts, cut_before-none, cut_before-slash,
}
use toska_mesh.Gateway.Routes.{
  with_slash_before, with_slash_after, normalize_prefix, split_service, parse_service_from_path,
}

-- the prefix begins and ends with "/"
abbrev pub IsNormal : String → Type 0
IsNormal p = (has_prefix p "/" ≡ true) × (ends_with b'/' p ≡ true)

no_slash : has_prefix "" "/" ≡ true → ⊥
unfolding has_prefix strip_prefix
no_slash h = cc

slash_first : (c : Char) (p q : String) → has_prefix (cons c p) "/" ≡ has_prefix (cons c q) "/"
unfolding has_prefix strip_prefix
slash_first c p q = ground arith

normalize_prefix_normal : (p : String) → IsNormal p → normalize_prefix p ≡ p
unfolding normalize_prefix
normalize_prefix_normal p n = elim (Bool-cases (str_eq p "")) [
  | inl e ↦ elim (no_slash (subst (λ q. has_prefix q "/" ≡ true) ((eq_iff p "").0 e) n.0)) [ ]
  | inr e ↦ rw (e, n.0, n.1, normalize_prefix) refl
]

has_prefix-slash_append : (p s : String) → has_prefix p "/" ≡ true → has_prefix (p +ₛ s) "/" ≡ true
has_prefix-slash_append nil s h = elim (no_slash h) [ ]
has_prefix-slash_append (cons c p) s h = rw (cons-append c p s) (slash_first c (p +ₛ s) p ∙ h)

slashes : (p : String) → has_prefix p "/" ≡ true → IsNormal (with_slash_after p)
slashes p h = elim (Bool-cases (ends_with b'/' p)) [
  | inl e ↦ rw e (h, e)
  | inr e ↦ rw e (has_prefix-slash_append p "/" h, ends_with-append p)
]

with_slash_before-slash : (p : String) → has_prefix (with_slash_before p) "/" ≡ true
with_slash_before-slash p = elim (Bool-cases (has_prefix p "/")) [
  | inl e ↦ rw e e
  | inr e ↦ rw e (has_prefix-append "/" p)
]

normal : (p : String) → IsNormal (normalize_prefix p)
unfolding normalize_prefix
normal p = elim (Bool-cases (str_eq p "")) [
  | inl e ↦ rw (e, normalize_prefix) (unfold has_prefix strip_prefix ends_with in (refl, refl))
  | inr e ↦ rw (e, normalize_prefix) (slashes (with_slash_before p) (with_slash_before-slash p))
]

-- The normalized prefix begins and ends with "/", and normalizing it again changes nothing.
pub normalize_prefix-IsNormal :
    (p : String)
    → IsNormal (normalize_prefix p) × (normalize_prefix (normalize_prefix p) ≡ normalize_prefix p)
normalize_prefix-IsNormal p =
    let n : IsNormal (normalize_prefix p) = normal p in (n, normalize_prefix_normal _ n)

-- What the parser finds in a path: the prefix, then the name of the service without a "/", then the
-- remainder, or nothing, for which the remainder is "/".
pub parse_service_from_path-parts :
    (prefix path name remainder : String)
    → parse_service_from_path prefix path ≡ some (name, remainder)
    → Avoids b'/' name
      × ((path ≡ prefix +ₛ (name +ₛ remainder)) ⊎ ((path ≡ prefix +ₛ name) × (remainder ≡ "/")))
unfolding parse_service_from_path split_service
parse_service_from_path-parts prefix path name remainder h =
    elim (Option-cases (strip_prefix prefix path)) [
      | inl n ↦ let bad : none ≡ some (name, remainder) = rw (n, parse_service_from_path) at h in cc
      | inr (rest, e) ↦
          let k : split_service rest ≡ some (name, remainder) =
            rw (e, parse_service_from_path) at h in
          elim (Bool-cases (str_eq rest "")) [
            | inl z ↦ let bad : none ≡ some (name, remainder) = rw (z, split_service) at k in cc
            | inr z ↦ elim (Option-cases (cut_before b'/' rest)) [
              | inl n ↦
                  let q : some (rest, "/") ≡ some (name, remainder) =
                    rw (z, n, split_service) at k in
                  let avoids = cut_before-none b'/' rest n in
                  let first : rest ≡ name = cc in
                  let last : "/" ≡ remainder = cc in
                  (
                    subst (Avoids b'/') first avoids,
                    inr (
                      strip_prefix-eq prefix path rest e ∙ ap (λ r. prefix +ₛ r) first,
                      sym last,
                    ),
                  )
              | inr (parts, c) ↦
                  let q : some parts ≡ some (name, remainder) = rw (z, c, split_service) at k in
                  let (whole, avoids) = cut_before-parts b'/' rest name remainder (c ∙ q) in
                  (avoids, inl (strip_prefix-eq prefix path rest e ∙ ap (λ r. prefix +ₛ r) whole))
            ]
          ]
    ]

split_service-append :
    (name rest : String)
    → Avoids b'/' name
    → split_service (name +ₛ ("/" +ₛ rest)) ≡ some (name, "/" +ₛ rest)
unfolding split_service
split_service-append name rest h =
    let cut = cut_before-slash name rest h in
    elim (Bool-cases (str_eq (name +ₛ ("/" +ₛ rest)) "")) [
      | inl z ↦
          let bad =
            subst (λ t. cut_before b'/' t ≡ some (name, "/" +ₛ rest)) ((eq_iff _ _).0 z) cut in
          unfold cut_before in cc
      | inr z ↦ rw (z, cut, split_service) refl
    ]

-- The parser recovers the name and the remainder from a path that is put together of a prefix, a name
-- without a "/" and a remainder that begins with "/".
pub parse_service_from_path-append :
    (prefix name rest : String)
    → Avoids b'/' name
    → parse_service_from_path prefix (prefix +ₛ (name +ₛ ("/" +ₛ rest))) ≡ some (name, "/" +ₛ rest)
unfolding parse_service_from_path split_service
parse_service_from_path-append prefix name rest h =
    rw (strip_prefix-append prefix (name +ₛ ("/" +ₛ rest)), parse_service_from_path)
      (split_service-append name rest h)
