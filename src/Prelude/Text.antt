-- ===== src/Prelude/Text.antt =====
-- The parts of Go's `strings`, `strconv` and `fmt` that the program calls, on valid UTF-8. A text is a
-- list of characters; letter case is that of ASCII.
use Prim.Native.Nat.{ℕ, zero, suc, ◌+◌, ◌-◌, ◌*◌, ◌/◌, ◌%◌, ◌^◌, ◌≤◌}
use Prim.Native.Char.{Char, char, code, IsScalar}
use Prim.Native.String.{String, [], ◌∷◌, char_at, ◌++◌ as append}
use mathlib.Core.Path.{◌≡◌, refl}
use mathlib.Core.Bool.{Bool, true, false, ◌&&◌}
use mathlib.Core.Option.{Option, none, some}
use mathlib.Core.List.{List}
use text.Mathlib.TextLemmas.{nil-append, cons-append}
use mathlib.Core.Logic.{inl, inr}
use native.Mathlib.Omega.{arith}
use text.Mathlib.TextEquality.{Char-path}
use text.Mathlib.Text.{◌==◌ as str_eq}
use toska_mesh.Prelude.Tests.{ltb, leb, ◌==◌, if◌then◌else◌, ==_iff, Bool-cases}
use toska_mesh.Prelude.Int.{ℤ, pos, negsuc, max_int64, IsInt64}

-- The code points of a text, as `for _, c := range s` gives them.
abbrev pub codes : String → List ℕ
codes [] = List.[]
codes (c ∷ s) = List.◌∷◌ (code c) (codes s)

infixl 65 ◌+ₛ◌
-- `s + t`
abbrev pub ◌+ₛ◌ : String → String → String
s +ₛ t = append s t

abbrev pub lower_code : ℕ → ℕ
lower_code n = if leb b'A' n && leb n b'Z' then n + 32 else n

pub lower-IsScalar : (n : ℕ) → IsScalar n → IsScalar (lower_code n)
lower-IsScalar n h = ground arith

abbrev pub lower_char : Char → Char
lower_char (char n p) = char (lower_code n) (lower-IsScalar n p)

-- `strings.ToLower(s)`
unfoldable pub to_lower : String → String
to_lower [] = []
to_lower (c ∷ s) = lower_char c ∷ to_lower s

-- `strings.EqualFold(s, t)`
unfoldable pub equal_fold : String → String → Bool
unfolding to_lower
equal_fold s t = str_eq (to_lower s) (to_lower t)

lower_char_idem : (c : Char) → lower_char (lower_char c) ≡ lower_char c
lower_char_idem (char n p) = Char-path _ _ (ground arith)

pub to_lower_idem : (s : String) → to_lower (to_lower s) ≡ to_lower s
unfolding to_lower
to_lower_idem [] = refl
to_lower_idem (c ∷ s) = cc (lower_char_idem c, to_lower_idem s)

-- What follows the prefix: `s[len(prefix):]` where `strings.HasPrefix(s, prefix)`.
unfoldable pub strip_prefix : String → String → Option String
strip_prefix [] s = some s
strip_prefix (c ∷ p) [] = none
strip_prefix (c ∷ p) (d ∷ s) = if code c == code d then strip_prefix p s else none

-- `strings.HasPrefix(s, prefix)`
unfoldable pub has_prefix : String → String → Bool
unfolding strip_prefix
has_prefix s prefix = elim (strip_prefix prefix s) [ none ↦ false | some rest ↦ true ]

-- The value of decimal digits behind `acc`.
unfoldable pub digits : ℕ → String → Option ℕ
digits acc [] = some acc
digits acc (c ∷ s) =
    let rest = digits (acc * 10 + (code c - b'0')) s in
    if leb b'0' (code c) && leb (code c) b'9' then rest else none

-- A number without a sign, at most `limit`.
unfoldable pub unsigned : ℕ → String → Option ℕ
unfolding digits
unsigned limit [] = none
unsigned limit (c ∷ s) = elim (digits 0 (c ∷ s)) [
  | none ↦ none
  | some n ↦ if leb n limit then some n else none
]

abbrev neg_ℕ : ℕ → ℤ
neg_ℕ zero = pos 0
neg_ℕ (suc n) = negsuc n

-- `strconv.Atoi(s)`, with `none` for an error
unfoldable pub atoi : String → Option ℤ
unfolding unsigned
atoi [] = none
atoi (c ∷ s) =
    if code c == b'-'
    then elim (unsigned (2 ^ 63) s) [ none ↦ none | some n ↦ some (neg_ℕ n) ]
    else elim (unsigned max_int64 (if code c == b'+' then s else c ∷ s)) [
      | none ↦ none
      | some n ↦ some (pos n)
    ]

unsigned-≤ : (limit : ℕ) (s : String) (n : ℕ) → unsigned limit s ≡ some n → n ≤ limit
unfolding unsigned
unsigned-≤ limit [] n h = cc
unsigned-≤ limit (c ∷ s) n h = ground arith

negated-IsInt64 :
    (o : Option ℕ) (n : ℤ)
    → ((m : ℕ) → o ≡ some m → m ≤ 2 ^ 63)
    → (elim o [ none ↦ none | some m ↦ some (neg_ℕ m) ]) ≡ some n
    → IsInt64 n
negated-IsInt64 none n b h = cc
negated-IsInt64 (some zero) n b h = ground arith
negated-IsInt64 (some (suc m)) n b h = ground (arith, b (suc m) refl)

given-IsInt64 :
    (o : Option ℕ) (n : ℤ)
    → ((m : ℕ) → o ≡ some m → m ≤ max_int64)
    → (elim o [ none ↦ none | some m ↦ some (pos m) ]) ≡ some n
    → IsInt64 n
given-IsInt64 none n b h = cc
given-IsInt64 (some m) n b h = ground (arith, b m refl)

-- A number that `strconv.Atoi` returns fits in 64 bits.
pub atoi-IsInt64 : (s : String) (n : ℤ) → atoi s ≡ some n → IsInt64 n
unfolding atoi
atoi-IsInt64 [] n h = cc
atoi-IsInt64 (c ∷ s) n h = elim (Bool-cases (code c == b'-')) [
  | inl e ↦ negated-IsInt64 (unsigned (2 ^ 63) s) n (unsigned-≤ (2 ^ 63) s) (rw e at h)
  | inr e ↦
      given-IsInt64 _ n (unsigned-≤ max_int64 (if code c == b'+' then s else c ∷ s)) (rw e at h)
]

-- The digits of `n` in a base from 2 to 16, in front of `acc`; the fuel is one more than `n`.
unfoldable pub digits_of : ℕ → ℕ → ℕ → String → String
digits_of zero base n acc = acc
digits_of (suc fuel) base n acc =
    let acc' = char_at "0123456789abcdef" (n % base) ∷ acc in
    let rest = digits_of fuel base (n / base) acc' in if ltb n base then acc' else rest

-- `strconv.FormatInt(n, base)` and, in base ten, the verb `%d`
unfoldable pub format_int : ℤ → ℕ → String
unfolding digits_of
format_int (pos n) base = digits_of (suc n) base n ""
format_int (negsuc n) base = append "-" (digits_of (suc (suc n)) base (suc n) "")

format_port : format_int (pos 8080) 10 ≡ "8080"
unfolding format_int
format_port = refl

format_hex : format_int (pos 0xbeef) 16 ≡ "beef"
unfolding format_int
format_hex = refl

atoi_cases : (atoi "-12" ≡ some (negsuc 11)) × (atoi "+7" ≡ some (pos 7)) × (atoi "1x" ≡ none)
unfolding atoi
atoi_cases = (refl, refl, refl)

to_lower_case : to_lower "My-Service" ≡ "my-service"
unfolding to_lower
to_lower_case = refl

-- `strings.Split(s, sep)` at a separator of one character: the part so far is `cur`
unfoldable pub split_from : ℕ → String → String → List String
split_from sep cur [] = List.◌∷◌ cur List.[]
split_from sep cur (c ∷ s) =
    let closed = split_from sep [] s in
    let longer = split_from sep (append cur (c ∷ [])) s in
    if code c == sep then List.◌∷◌ cur closed else longer

unfoldable pub split : ℕ → String → List String
unfolding split_from
split sep s = split_from sep [] s

split_parts : split b'.' "a..bc" ≡ List.◌∷◌ "a" (List.◌∷◌ "" (List.◌∷◌ "bc" List.[]))
unfolding split
split_parts = refl

-- `strings.HasSuffix(s, sep)` for one character
unfoldable pub ends_with : ℕ → String → Bool
ends_with sep [] = false
ends_with sep (c ∷ []) = code c == sep
ends_with sep (c ∷ d ∷ s) = ends_with sep (d ∷ s)

-- `s[:i]` and `s[i:]` at the first `sep`, `i := strings.IndexByte(s, sep)`; `none` if there is none
unfoldable pub cut_before : ℕ → String → Option (String × String)
cut_before sep [] = none
cut_before sep (c ∷ s) =
    let later = cut_before sep s in
    if code c == sep
    then some ("", c ∷ s)
    else elim later [ none ↦ none | some (before, rest) ↦ some (c ∷ before, rest) ]

pub strip_prefix-append : (p s : String) → strip_prefix p (p +ₛ s) ≡ some s
unfolding strip_prefix
strip_prefix-append [] s = rw (nil-append s)
strip_prefix-append (c ∷ p) s =
    rw (cons-append c p s, (==_iff (code c) (code c)).1 refl) (strip_prefix-append p s)

-- What is left behind a prefix gives the text back.
pub strip_prefix-eq : (p s t : String) → strip_prefix p s ≡ some t → s ≡ p +ₛ t
unfolding strip_prefix
strip_prefix-eq [] s t h = cc (nil-append t)
strip_prefix-eq (c ∷ p) [] t h = cc
strip_prefix-eq (c ∷ p) (d ∷ s) t h = elim (Bool-cases (code c == code d)) [
  | inl e ↦
      let rest = strip_prefix-eq p s t (rw (e, strip_prefix) at h) in
      cc (Char-path c d ((==_iff (code c) (code d)).0 e), rest, cons-append c p t)
  | inr e ↦ let bad : none ≡ some t = rw (e, strip_prefix) at h in cc
]

pub has_prefix-append : (p s : String) → has_prefix (p +ₛ s) p ≡ true
unfolding has_prefix
has_prefix-append p s = rw (strip_prefix-append p s, has_prefix)
