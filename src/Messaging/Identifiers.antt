-- ===== src/Messaging/Identifiers.antt =====
-- The identifiers that `generateID` gives to messages.
use text.Mathlib.TextLemmas.{append_assoc, cons-append, nil-append}
use Prim.Native.Char.{Char, char}
use Prim.Native.String.{◌∷◌ as cons, [] as nil}
use toska_mesh.Prelude.{
  ℕ, suc, ◌+◌, ◌%◌, ◌^◌, ◌≤◌, ◌<◌, String, ◌≡◌, sym, ap, ◌∙◌, inl, inr, some, List, [], ◌∷◌, arith,
  length, In,
}
use toska_mesh.Prelude.Int.{pos}
use toska_mesh.Prelude.Text.{◌+ₛ◌, format_int, cut_before}
use toska_mesh.Prelude.Cut.{Avoids, cut_before-append}
use toska_mesh.Prelude.Digits.{format_int_injective, format_int-Avoids}
use toska_mesh.Messaging.{Publisher, generate_id}

-- The identifiers of consecutive calls at the given instants.
abbrev pub generated : Publisher → List ℕ → List String
generated p [] = []
generated p (t ∷ ts) = let (id, p') = generate_id p t in id ∷ generated p' ts

-- No text stands twice in the list.
abbrev pub AllDistinct : List String → Type 0
AllDistinct [] = Unit
AllDistinct (x ∷ xs) = ¬ In x xs × AllDistinct xs

abbrev dash : Char
dash = char b'-' (ground arith)

abbrev id_text : ℕ → ℕ → String
id_text t seq = format_int (pos t) 10 +ₛ "-" +ₛ format_int (pos seq) 10

cut_before-dash :
    (a b : String) → Avoids b'-' a → cut_before b'-' (a +ₛ "-" +ₛ b) ≡ some (a, cons dash b)
cut_before-dash a b h =
    rw (append_assoc a "-" b, cons-append dash nil b, nil-append b) (cut_before-append a b dash h)

id_text_injective : (t u m n : ℕ) → id_text t m ≡ id_text u n → m ≡ n
id_text_injective t u m n e =
    let first =
      cut_before-dash (format_int (pos t) 10) (format_int (pos m) 10) (format_int-Avoids t) in
    let second =
      cut_before-dash (format_int (pos u) 10) (format_int (pos n) 10) (format_int-Avoids u) in
    let cuts : some (format_int (pos t) 10, cons dash (format_int (pos m) 10))
        ≡ some (format_int (pos u) 10, cons dash (format_int (pos n) 10)) =
      sym first ∙ ap (cut_before b'-') e ∙ second in
    let tails : format_int (pos m) 10 ≡ format_int (pos n) 10 = cc in format_int_injective m n tails

-- The counter of a later identifier.
In-generated :
    (p : Publisher) (ts : List ℕ) (x : String)
    → In x (generated p ts)
    → (t k : ℕ) × (k < length ts) × (x ≡ id_text t ((p.id_counter + suc k) % 2 ^ 64))
unfolding generate_id
In-generated p [] x h = absurd h
In-generated p (t ∷ ts) x (inl e) = (t, 0, omega arith, e)
In-generated p (t ∷ ts) x (inr h) =
    let (u, k, b, e) = In-generated (generate_id p t).1 ts x h in
    (u, suc k, omega (arith, b), e ∙ ap (λ n. id_text u n) (omega arith))

-- The identifiers of up to 2 ^ 64 consecutive messages of a publisher are pairwise distinct, whatever
-- the clock shows and wherever the counter stands.
pub generated-AllDistinct :
    (p : Publisher) (ts : List ℕ) → length ts ≤ 2 ^ 64 → AllDistinct (generated p ts)
unfolding generate_id
generated-AllDistinct p [] b = tt
generated-AllDistinct p (t ∷ ts) b = (
  λ h.
      let p' = (generate_id p t).1 in
      let (u, k, below, e) = In-generated p' ts _ h in
      let same = id_text_injective t u p'.id_counter _ e in absurd (omega (arith, same, below, b)),
  generated-AllDistinct (generate_id p t).1 ts (omega (arith, b)),
)
