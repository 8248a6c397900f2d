-- ===== src/Prelude/Order.antt =====
-- Go's order of strings, and `sort.Strings` and `sort.Slice` by a key. Sorting is by insertion: the
-- program sorts keys of maps, which are distinct, so that every sort gives the same list.
use toska_mesh.Prelude.Tests.{ltb, ◌==◌, if◌then◌else◌, Bool-cases}
use toska_mesh.Prelude.Lists.{length, All, In, All-map}
use Prim.Native.Nat.{suc}
use Prim.Native.Char.{code}
use Prim.Native.String.{String}
use mathlib.Core.Path.{◌≡◌, refl, sym}
use mathlib.Core.Logic.{◌↔◌, ◌⊎◌, inl, inr, ◌≢◌}
use mathlib.Core.Bool.{Bool, true, false}
use mathlib.Core.List.{List, [], ◌∷◌}
use native.Mathlib.Omega.{arith}

-- `s <= t`: the order of the code points, which is that of the bytes in UTF-8
abbrev pub leb_text : String → String → Bool
leb_text String.[] t = true
leb_text (String.◌∷◌ c s) String.[] = false
leb_text (String.◌∷◌ c s) (String.◌∷◌ d t) =
    let rest = leb_text s t in
    if ltb (code c) (code d) then true else if code c == code d then rest else false

pub leb_text_total : (s t : String) → leb_text s t ≡ false → leb_text t s ≡ true
leb_text_total String.[] t h = cc
leb_text_total (String.◌∷◌ c s) String.[] h = refl
leb_text_total (String.◌∷◌ c s) (String.◌∷◌ d t) h = ground (arith, leb_text_total s t)

leb_text_trans : (s t u : String) → leb_text s t ≡ true → leb_text t u ≡ true → leb_text s u ≡ true
leb_text_trans String.[] t u h k = refl
leb_text_trans (String.◌∷◌ c s) String.[] u h k = cc
leb_text_trans (String.◌∷◌ c s) (String.◌∷◌ d t) String.[] h k = cc
leb_text_trans (String.◌∷◌ c s) (String.◌∷◌ d t) (String.◌∷◌ e u) h k =
    ground (arith, leb_text_trans s t u)

module _ {A : Type 0} (key : A → String) where
  abbrev place : A → List A → List A
  place x [] = x ∷ []
  place x (y ∷ ys) =
      let rest = place x ys in if leb_text (key x) (key y) then x ∷ y ∷ ys else y ∷ rest

  unfoldable pub sort_by : List A → List A
  sort_by [] = []
  sort_by (x ∷ xs) = place x (sort_by xs)

  abbrev pub IsAscending : List A → Type 0
  IsAscending [] = Unit
  IsAscending (x ∷ []) = Unit
  IsAscending (x ∷ y ∷ ys) = (leb_text (key x) (key y) ≡ true) × IsAscending (y ∷ ys)

  In-place : (z x : A) (ys : List A) → In z (place x ys) ↔ ((z ≡ x) ⊎ In z ys)
  In-place z x [] = ground arith
  In-place z x (y ∷ ys) = ground (arith, In-place z x ys)

  pub In-sort_by : (z : A) (xs : List A) → In z (sort_by xs) ↔ In z xs
  unfolding sort_by
  In-sort_by z [] = ground arith
  In-sort_by z (x ∷ xs) = ground (arith, In-place z x (sort_by xs), In-sort_by z xs)

  length-place : (x : A) (ys : List A) → length (place x ys) ≡ suc (length ys)
  length-place x [] = refl
  length-place x (y ∷ ys) = ground (arith, length-place x ys)

  pub length-sort_by : (xs : List A) → length (sort_by xs) ≡ length xs
  unfolding sort_by
  length-sort_by [] = refl
  length-sort_by (x ∷ xs) = ground (arith, length-place x (sort_by xs), length-sort_by xs)

  place-IsAscending : (x : A) (ys : List A) → IsAscending ys → IsAscending (place x ys)
  place-IsAscending x [] h = tt
  place-IsAscending x (y ∷ []) h = ground (arith, leb_text_total (key x) (key y))
  place-IsAscending x (y ∷ z ∷ ys) h =
      ground (arith, leb_text_total (key x) (key y), place-IsAscending x (z ∷ ys) h.1)

  pub sort_by-IsAscending : (xs : List A) → IsAscending (sort_by xs)
  unfolding sort_by
  sort_by-IsAscending [] = tt
  sort_by-IsAscending (x ∷ xs) = place-IsAscending x (sort_by xs) (sort_by-IsAscending xs)

  -- No two elements have the same key.
  abbrev pub DistinctBy : List A → Type 0
  DistinctBy [] = Unit
  DistinctBy (x ∷ xs) = All (λ y. key y ≢ key x) xs × DistinctBy xs

  All-place : (P : A → Type 0) (x : A) (ys : List A) → P x → All P ys → All P (place x ys)
  All-place P x [] h k = (h, tt)
  All-place P x (y ∷ ys) h k = elim (Bool-cases (leb_text (key x) (key y))) [
    | inl e ↦ rw e (h, k)
    | inr e ↦ rw e (k.0, All-place P x ys h k.1)
  ]

  place-DistinctBy :
      (x : A) (ys : List A) → All (λ y. key y ≢ key x) ys → DistinctBy ys → DistinctBy (place x ys)
  place-DistinctBy x [] h d = (tt, tt)
  place-DistinctBy x (y ∷ ys) h d = elim (Bool-cases (leb_text (key x) (key y))) [
    | inl e ↦ rw e (h, d)
    | inr e ↦
        rw e (
          All-place (λ z. key z ≢ key y) x ys (λ s. h.0 (sym s)) d.0,
          place-DistinctBy x ys h.1 d.1,
        )
  ]

  All-sort_by : (P : A → Type 0) (xs : List A) → All P xs → All P (sort_by xs)
  unfolding sort_by
  All-sort_by P [] h = tt
  All-sort_by P (x ∷ xs) h = All-place P x (sort_by xs) h.0 (All-sort_by P xs h.1)

  pub sort_by-DistinctBy : (xs : List A) → DistinctBy xs → DistinctBy (sort_by xs)
  unfolding sort_by
  sort_by-DistinctBy [] d = tt
  sort_by-DistinctBy (x ∷ xs) d =
      place-DistinctBy x (sort_by xs) (All-sort_by (λ y. key y ≢ key x) xs d.0)
        (sort_by-DistinctBy xs d.1)

  -- What comes later is not smaller.
  pub above_first :
      (x : A) (ys : List A) → IsAscending (x ∷ ys) → All (λ y. leb_text (key x) (key y) ≡ true) ys
  above_first x [] h = tt
  above_first x (y ∷ ys) h = (
    h.0,
    All-map _ _ ys (λ z k. leb_text_trans (key x) (key y) (key z) h.0 k) (above_first y ys h.1),
  )

  pub IsAscending-rest : (x : A) (ys : List A) → IsAscending (x ∷ ys) → IsAscending ys
  IsAscending-rest x [] h = tt
  IsAscending-rest x (y ∷ ys) h = h.1

  pub IsAscending-first :
      (x : A) (ys : List A)
      → All (λ y. leb_text (key x) (key y) ≡ true) ys
      → IsAscending ys
      → IsAscending (x ∷ ys)
  IsAscending-first x [] a h = tt
  IsAscending-first x (y ∷ ys) a h = (a.0, h)
