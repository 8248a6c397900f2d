-- ===== src/Prelude/Cut.antt =====
-- Lemmas on the ends of a text, and on cutting it at a character.
use toska_mesh.Prelude.Tests.{◌==◌, ==_iff, Bool-cases, Option-cases}
use toska_mesh.Prelude.Lists.{All}
use toska_mesh.Prelude.Text.{codes, ◌+ₛ◌, split_from, split, ends_with, cut_before}
use Prim.Native.Nat.{ℕ}
use Prim.Native.Char.{Char, code, char}
use Prim.Native.String.{String, [], ◌∷◌}
use mathlib.Core.Path.{◌≡◌, refl, sym, ap, subst, ◌∙◌}
use mathlib.Core.Logic.{◌≢◌, inl, inr}
use mathlib.Core.Bool.{true}
use mathlib.Core.Option.{none, some}
use native.Mathlib.Omega.{arith}
use text.Mathlib.TextLemmas.{nil-append, cons-append, append-nil, append_assoc}
use mathlib.Core.List.{List}

-- The text does not hold the character.
abbrev pub Avoids : ℕ → String → Type 0
Avoids sep s = All (λ n. n ≢ sep) (codes s)

pub ends_with-append : (p : String) → ends_with b'/' (p +ₛ "/") ≡ true
unfolding ends_with
ends_with-append [] = refl
ends_with-append (c ∷ []) = rw (cons-append c [] "/", ends_with) refl
ends_with-append (c ∷ d ∷ p) =
    rw (cons-append c (d ∷ p) "/", cons-append d p "/", ends_with)
      (rw (cons-append d p "/") at (ends_with-append (d ∷ p)))

-- The part before the cut avoids the character, and both parts make up the text.
pub cut_before-parts :
    (sep : ℕ) (s before rest : String)
    → cut_before sep s ≡ some (before, rest)
    → (s ≡ before +ₛ rest) × Avoids sep before
unfolding cut_before
cut_before-parts sep [] before rest h = cc
cut_before-parts sep (c ∷ s) before rest h = elim (Bool-cases (code c == sep)) [
  | inl e ↦
      let k : some ("", c ∷ s) ≡ some (before, rest) = rw (e, cut_before) at h in
      let first : "" ≡ before = cc in
      let last : c ∷ s ≡ rest = cc in
      (last ∙ sym (nil-append rest) ∙ ap (λ b. b +ₛ rest) first, subst (Avoids sep) first tt)
  | inr e ↦ elim (Option-cases (cut_before sep s)) [
    | inl n ↦ let k : none ≡ some (before, rest) = rw (e, n, cut_before) at h in cc
    | inr ((b, r), q) ↦
        let k : some (c ∷ b, r) ≡ some (before, rest) = rw (e, q, cut_before) at h in
        let first : c ∷ b ≡ before = cc in
        let last : r ≡ rest = cc in
        let (whole, avoids) = cut_before-parts sep s b r q in
        (cc (whole, first, last, cons-append c b r), subst (Avoids sep) first (ground (arith)))
  ]
]

-- No cut: the text avoids the character.
pub cut_before-none : (sep : ℕ) (s : String) → cut_before sep s ≡ none → Avoids sep s
unfolding cut_before
cut_before-none sep [] h = tt
cut_before-none sep (c ∷ s) h = elim (Bool-cases (code c == sep)) [
  | inl e ↦ let k : some ("", c ∷ s) ≡ none = rw (e, cut_before) at h in cc
  | inr e ↦ elim (Option-cases (cut_before sep s)) [
    | inl n ↦ ground (arith, cut_before-none sep s n)
    | inr (p, q) ↦ let k : some (c ∷ p.0, p.1) ≡ none = rw (e, q, cut_before) at h in cc
  ]
]

pub cut_before-append :
    (before rest : String) (c : Char)
    → Avoids (code c) before
    → cut_before (code c) (before +ₛ (c ∷ rest)) ≡ some (before, c ∷ rest)
unfolding cut_before
cut_before-append [] rest c h =
    rw (nil-append (c ∷ rest), cut_before, (==_iff (code c) (code c)).1 refl) refl
cut_before-append (d ∷ before) rest c h =
    rw (cons-append d before (c ∷ rest), cut_before, cut_before-append before rest c h.1)
      (ground arith)

abbrev slash : Char
slash = char b'/' (ground arith)

pub cut_before-slash :
    (before rest : String)
    → Avoids b'/' before
    → cut_before b'/' (before +ₛ ("/" +ₛ rest)) ≡ some (before, "/" +ₛ rest)
cut_before-slash before rest h =
    rw (cons-append slash [] rest, nil-append rest) (cut_before-append before rest slash h)

push : (cur s : String) (c : Char) → (cur +ₛ (c ∷ [])) +ₛ s ≡ cur +ₛ (c ∷ s)
push cur s c =
    append_assoc cur (c ∷ []) s
    ∙ ap (λ t. cur +ₛ t) (cons-append c [] s ∙ ap (λ t. c ∷ t) (nil-append s))

-- A text without the separator is one part.
split_from-whole :
    (sep : ℕ) (cur s : String) → Avoids sep s → split_from sep cur s ≡ List.◌∷◌ (cur +ₛ s) List.[]
unfolding split_from
split_from-whole sep cur [] h = rw (append-nil cur) refl
split_from-whole sep cur (c ∷ s) h =
    ground (arith, split_from-whole sep (cur +ₛ (c ∷ [])) s h.1, push cur s c)

-- Up to the first separator goes one part.
split_from-part :
    (cur s rest : String) (c : Char)
    → Avoids (code c) s
    → split_from (code c) cur (s +ₛ (c ∷ rest)) ≡ List.◌∷◌ (cur +ₛ s) (split_from (code c) [] rest)
unfolding split_from
split_from-part cur [] rest c h =
    rw (nil-append (c ∷ rest), append-nil cur, split_from, (==_iff (code c) (code c)).1 refl) refl
split_from-part cur (d ∷ s) rest c h =
    rw (cons-append d s (c ∷ rest), split_from)
      (ground (arith, split_from-part (cur +ₛ (d ∷ [])) s rest c h.1, push cur s d))

abbrev dot : Char
dot = char b'.' (ground arith)

-- Three parts without a dot, joined by dots, are split again.
pub split-dots :
    (a b c : String)
    → Avoids b'.' a
    → Avoids b'.' b
    → Avoids b'.' c
    → split b'.' (a +ₛ ("." +ₛ (b +ₛ ("." +ₛ c)))) ≡ List.◌∷◌ a (List.◌∷◌ b (List.◌∷◌ c List.[]))
unfolding split
split-dots a b c ha hb hc =
    rw
      (
        cons-append dot [] (b +ₛ ("." +ₛ c)),
        nil-append (b +ₛ ("." +ₛ c)),
        cons-append dot [] c,
        nil-append c,
      )
      (split_from-part "" a (b +ₛ (dot ∷ c)) dot ha
        ∙ ap (λ l. List.◌∷◌ ("" +ₛ a) l) (split_from-part "" b c dot hb)
        ∙ ap (λ l. List.◌∷◌ ("" +ₛ a) (List.◌∷◌ ("" +ₛ b) l)) (split_from-whole b'.' "" c hc)
        ∙ cc (nil-append a, nil-append b, nil-append c))
