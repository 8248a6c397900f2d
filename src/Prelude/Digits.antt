-- ===== src/Prelude/Digits.antt =====
-- Lemmas on numbers that are printed in base ten.
use mathlib.Core.Option.{some}
use toska_mesh.Prelude.Tests.{ltb, Bool-cases}
use toska_mesh.Prelude.Int.{pos}
use toska_mesh.Prelude.Text.{digits, digits_of, format_int}
use toska_mesh.Prelude.Cut.{Avoids}
use Prim.Native.Nat.{ℕ, zero, suc, ◌+◌, ◌*◌, ◌/◌, ◌%◌, ◌<◌}
use Prim.Native.Char.{code}
use Prim.Native.String.{String, ◌∷◌, char_at}
use mathlib.Core.Path.{◌≡◌, refl, sym, ap, ◌∙◌}
use mathlib.Core.Logic.{inl, inr}
use native.Mathlib.Omega.{arith}

digit_code : (k : ℕ) → k < 10 → code (char_at "0123456789abcdef" k) ≡ b'0' + k
digit_code zero h = refl
digit_code (suc zero) h = refl
digit_code (suc (suc zero)) h = refl
digit_code (suc (suc (suc zero))) h = refl
digit_code (suc (suc (suc (suc zero)))) h = refl
digit_code (suc (suc (suc (suc (suc zero))))) h = refl
digit_code (suc (suc (suc (suc (suc (suc zero)))))) h = refl
digit_code (suc (suc (suc (suc (suc (suc (suc zero))))))) h = refl
digit_code (suc (suc (suc (suc (suc (suc (suc (suc zero)))))))) h = refl
digit_code (suc (suc (suc (suc (suc (suc (suc (suc (suc zero))))))))) h = refl
digit_code (suc (suc (suc (suc (suc (suc (suc (suc (suc (suc k)))))))))) h = absurd (omega arith)

-- The value of digits that begin with `k`.
digits-cons :
    (m k : ℕ) (s : String)
    → k < 10
    → digits m (char_at "0123456789abcdef" k ∷ s) ≡ digits (m * 10 + k) s
unfolding digits
digits-cons m k s h = ground (arith, digit_code k h)

-- Digits that are printed are read back.
digits-digits_of :
    (fuel n : ℕ) (s : String) → n < fuel → digits 0 (digits_of fuel 10 n s) ≡ digits n s
unfolding digits_of digits
digits-digits_of zero n s h = absurd (omega arith)
digits-digits_of (suc fuel) n s h = elim (Bool-cases (ltb n 10)) [
  | inl e ↦
      rw (digits_of, e)
        (digits-cons 0 (n % 10) s (omega arith) ∙ ap (λ m. digits m s) (ground arith))
  | inr e ↦
      rw (digits_of, e)
        (digits-digits_of fuel (n / 10) (char_at "0123456789abcdef" (n % 10) ∷ s) (ground arith)
          ∙ digits-cons (n / 10) (n % 10) s (omega arith)
          ∙ ap (λ m. digits m s) (omega arith))
]

digits_of-Avoids : (fuel n : ℕ) (s : String) → Avoids b'-' s → Avoids b'-' (digits_of fuel 10 n s)
unfolding digits_of
digits_of-Avoids zero n s a = a
digits_of-Avoids (suc fuel) n s a =
    let digit = digit_code (n % 10) (omega arith) in
    let acc = char_at "0123456789abcdef" (n % 10) ∷ s in
    let first : Avoids b'-' acc = (λ e. omega (arith, digit, e), a) in
    elim (Bool-cases (ltb n 10)) [
      | inl e ↦ rw (digits_of, e) first
      | inr e ↦ rw (digits_of, e) (digits_of-Avoids fuel (n / 10) acc first)
    ]

pub format_int_injective : (m n : ℕ) → format_int (pos m) 10 ≡ format_int (pos n) 10 → m ≡ n
unfolding format_int digits
format_int_injective m n e =
    let read : some m ≡ some n =
      sym (digits-digits_of (suc m) m "" (omega arith))
      ∙ ap (digits 0) e
      ∙ digits-digits_of (suc n) n "" (omega arith) in
    ground arith

pub format_int-Avoids : (n : ℕ) → Avoids b'-' (format_int (pos n) 10)
unfolding format_int
format_int-Avoids n = digits_of-Avoids (suc n) n "" tt
