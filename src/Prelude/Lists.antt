-- ===== src/Prelude/Lists.antt =====
-- Lists measured and indexed by native numbers, under the library's names.
use Prim.Native.Nat.{ℕ, zero, suc, ◌+◌, ◌<◌}
use mathlib.Core.Path.{◌≡◌, refl, sym, subst}
use mathlib.Core.Bool.{Bool, true, false, ◌&&◌, ◌||◌}
use mathlib.Core.List.{List, [], ◌∷◌, ◌++◌}
use mathlib.Core.Logic.{◌⊎◌, inl, inr}
use mathlib.Core.Option.{Option, none, some}
use native.Mathlib.Omega.{arith}
use toska_mesh.Prelude.Tests.{if◌then◌else◌}

module _ {ℓ} {A : Type ℓ} where
  abbrev pub length : List A → ℕ
  length [] = 0
  length (x ∷ xs) = suc (length xs)

  abbrev pub get_elem? : List A → ℕ → Option A
  get_elem? [] i = none
  get_elem? (x ∷ xs) zero = some x
  get_elem? (x ∷ xs) (suc i) = get_elem? xs i

  abbrev pub replicate : ℕ → A → List A
  replicate zero a = []
  replicate (suc n) a = a ∷ replicate n a

  -- `for … { if p(x) { out = append(out, x) } }`
  abbrev pub keep : (A → Bool) → List A → List A
  keep p [] = []
  keep p (x ∷ xs) = let rest = keep p xs in if p x then x ∷ rest else rest

  abbrev pub null : List A → Bool
  null [] = true
  null (x ∷ xs) = false

module _ {ℓ κ} {A : Type ℓ} (P : A → Type κ) where
  abbrev pub All : List A → Type κ
  All [] = Unit
  All (x ∷ xs) = P x × All xs

module _ {ℓ} {A : Type ℓ} where
  pub length-append : (xs ys : List A) → length (xs ++ ys) ≡ length xs + length ys
  length-append [] ys = omega arith
  length-append (x ∷ xs) ys = omega (arith, length-append xs ys)

  pub length-replicate : (n : ℕ) (a : A) → length (replicate n a) ≡ n
  length-replicate zero a = refl
  length-replicate (suc n) a = omega (arith, length-replicate n a)

  -- An index below the length finds an element.
  pub get_elem?_total : (xs : List A) (i : ℕ) → i < length xs → (x : A) × (get_elem? xs i ≡ some x)
  get_elem?_total [] i h = elim h [ ]
  get_elem?_total (x ∷ xs) zero h = (x, refl)
  get_elem?_total (x ∷ xs) (suc i) h = get_elem?_total xs i (omega arith)

module _ {ℓ κ} {A : Type ℓ} (P : A → Type κ) where
  pub All-get_elem? : (xs : List A) (i : ℕ) (x : A) → All P xs → get_elem? xs i ≡ some x → P x
  All-get_elem? [] i x h e = absurd (ground arith)
  All-get_elem? (y ∷ ys) zero x h e = ground arith
  All-get_elem? (y ∷ ys) (suc i) x h e = All-get_elem? ys i x h.1 e

  pub All-keep : (p : A → Bool) (xs : List A) → ((x : A) → p x ≡ true → P x) → All P (keep p xs)
  All-keep p [] h = tt
  All-keep p (x ∷ xs) h = ground (arith, h x, All-keep p xs h)

-- Membership, by recursion, so that the tactics take it apart.
abbrev pub In : {A : Type 0} → A → List A → Type 0
In x [] = ⊥
In x (y ∷ ys) = (x ≡ y) ⊎ In x ys

module _ {A : Type 0} where
  pub get_elem?-In : (xs : List A) (i : ℕ) (x : A) → get_elem? xs i ≡ some x → In x xs
  get_elem?-In [] i x h = cc
  get_elem?-In (y ∷ ys) zero x h = ground arith
  get_elem?-In (y ∷ ys) (suc i) x h = inr (get_elem?-In ys i x h)

  pub In-append : (x : A) (xs ys : List A) → In x (xs ++ ys) → In x xs ⊎ In x ys
  In-append x [] ys h = inr h
  In-append x (y ∷ xs) ys (inl e) = inl (inl e)
  In-append x (y ∷ xs) ys (inr h) = elim (In-append x xs ys h) [
    | inl k ↦ inl (inr k)
    | inr k ↦ inr k
  ]

  pub In-replicate : (n : ℕ) (x a : A) → In x (replicate n a) → x ≡ a
  In-replicate zero x a h = absurd h
  In-replicate (suc n) x a (inl e) = e
  In-replicate (suc n) x a (inr h) = In-replicate n x a h

  pub In-keep : (p : A → Bool) (x : A) (xs : List A) → In x (keep p xs) → In x xs × (p x ≡ true)
  In-keep p x [] h = absurd h
  In-keep p x (y ∷ ys) h = ground (arith, In-keep p x ys)

  pub All-In {κ} : (P : A → Type κ) (x : A) (xs : List A) → All P xs → In x xs → P x
  All-In P x [] a h = absurd h
  All-In P x (y ∷ ys) a (inl e) = subst P (sym e) a.0
  All-In P x (y ∷ ys) a (inr h) = All-In P x ys a.1 h

module _ {ℓ} {A : Type ℓ} where
  abbrev pub take : ℕ → List A → List A
  take zero xs = []
  take (suc n) [] = []
  take (suc n) (x ∷ xs) = x ∷ take n xs

  abbrev pub drop : ℕ → List A → List A
  drop zero xs = xs
  drop (suc n) [] = []
  drop (suc n) (x ∷ xs) = drop n xs

pub null-cases {ℓ} : {A : Type ℓ} (xs : List A) → (xs ≡ []) ⊎ (null xs ≡ false)
null-cases [] = inl refl
null-cases (x ∷ xs) = inr refl

pub All-map {ℓ κ μ} :
    {A : Type ℓ} (P : A → Type κ) (Q : A → Type μ) (xs : List A)
    → ((x : A) → P x → Q x)
    → All P xs
    → All Q xs
All-map P Q [] f h = tt
All-map P Q (x ∷ xs) f h = (f x h.0, All-map P Q xs f h.1)

module _ {ℓ} {A : Type ℓ} where
  -- a loop that looks for an element and leaves when it is found
  abbrev pub any : (A → Bool) → List A → Bool
  any p [] = false
  any p (x ∷ xs) = p x || any p xs

  abbrev pub all : (A → Bool) → List A → Bool
  all p [] = true
  all p (x ∷ xs) = p x && all p xs
