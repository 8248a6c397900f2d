-- ===== src/Router/Fairness.antt =====
-- Round-robin and weighted round-robin share the requests out evenly over one cycle.
use mathlib.Core.Path.{ap₂}
use mathlib.Core.List.{map-append}
use native.Mathlib.Nat.{zero-add, add-zero}
use toska_mesh.Prelude.Dict.{lookup}
use toska_mesh.Prelude.Text.{◌+ₛ◌, atoi}
use toska_mesh.Prelude.{
  ℕ, zero, suc, ◌+◌, ◌-◌, ◌*◌, ◌/◌, ◌%◌, ◌≤◌, ◌<◌, String, ◌≡◌, refl, sym, ap, ◌∙◌, subst, inl, inr,
  Bool, true, Option, none, some, List, [], ◌∷◌, ◌++◌, map, arith, eq_refl, ltb, if◌then◌else◌,
  Option-cases, length, get_elem?, replicate, take, drop,
}
use toska_mesh.Prelude.Int.{ℤ, pos, negsuc, max_int64, add64, add64-one}
use toska_mesh.Router.{Instance}
use toska_mesh.Router.Strategies.{abs64, pick_mod, weight, expand}
use toska_mesh.Router.Tracking.{count_of, count_of-insert}
use toska_mesh.Router.Balancer.{LoadBalancer, select_round_robin, select_weighted_round_robin}

-- The instances that consecutive calls of `selectRoundRobin` pick.
abbrev pub picks : ℕ → LoadBalancer → String → List Instance → List (Option Instance)
picks zero lb name xs = []
picks (suc k) lb name xs =
    let (lb', o) = select_round_robin lb name xs in let rest = picks k lb' name xs in o ∷ rest

-- the elements at k consecutive positions, modulo the length, from `c + 1` on
elems : ℕ → ℕ → List Instance → List (Option Instance)
elems zero c xs = []
elems (suc k) c xs = get_elem? xs ((c + 1) % length xs) ∷ elems k (c + 1) xs

select_round_robin_lem :
    (c : ℕ) (lb : LoadBalancer) (name : String) (xs : List Instance)
    → count_of name lb.round_robin_idx ≡ pos c
    → c < max_int64
    → (count_of name (select_round_robin lb name xs).0.round_robin_idx ≡ pos (c + 1))
      × ((select_round_robin lb name xs).1 ≡ get_elem? xs ((c + 1) % length xs))
unfolding select_round_robin pick_mod abs64
select_round_robin_lem c lb name xs e h =
    let n = add64 (count_of name lb.round_robin_idx) (pos 1) in
    let en : n ≡ pos (c + 1) = ap (λ v. add64 v (pos 1)) e ∙ add64-one c h in
    (simp (count_of-insert, eq_refl) en, rw en refl)

picks-elems :
    (k c : ℕ) (lb : LoadBalancer) (name : String) (xs : List Instance)
    → count_of name lb.round_robin_idx ≡ pos c
    → c + k ≤ max_int64
    → picks k lb name xs ≡ elems k c xs
unfolding elems
picks-elems zero c lb name xs e h = refl
picks-elems (suc k) c lb name xs e h =
    let (lb', o) = select_round_robin lb name xs in
    let step = select_round_robin_lem c lb name xs e (omega arith) in
    cc (step.1, picks-elems k (c + 1) lb' name xs step.0 (omega arith))

mod_at : (q n p : ℕ) → p < n → (q * n + p) % n ≡ p
mod_at q n p h = grind arith

drop_at :
    (xs : List Instance) (p : ℕ)
    → p < length xs
    → (x : Instance) × (get_elem? xs p ≡ some x) × (drop p xs ≡ x ∷ drop (suc p) xs)
drop_at [] p h = elim h [ ]
drop_at (x ∷ xs) zero h = (x, refl, refl)
drop_at (x ∷ xs) (suc p) h = drop_at xs p (omega arith)

elems-take :
    (k c q p : ℕ) (xs : List Instance)
    → c + 1 ≡ q * length xs + p
    → p + k ≤ length xs
    → elems k c xs ≡ map some (take k (drop p xs))
unfolding elems
elems-take zero c q p xs e h = refl
elems-take (suc k) c q p xs e h =
    let (x, got, dropped) = drop_at xs p (omega arith) in
    let at : (c + 1) % length xs ≡ p = rw e (mod_at q (length xs) p (omega arith)) in
    let ih = elems-take k (c + 1) q (suc p) xs (omega arith) (omega arith) in
    rw (at, got, dropped, ih) refl

elems-append :
    (j k c : ℕ) (xs : List Instance) → elems (j + k) c xs ≡ elems j c xs ++ elems k (c + j) xs
unfolding elems
elems-append zero k c xs = rw (zero-add k, add-zero c) refl
elems-append (suc j) k c xs =
    let len : suc j + k ≡ suc (j + k) = omega arith in
    let next : c + suc j ≡ c + 1 + j = omega arith in
    rw (len, next, elems-append j k (c + 1) xs) refl

take_all : (n : ℕ) (xs : List Instance) → length xs ≤ n → take n xs ≡ xs
take_all zero [] h = refl
take_all (suc n) [] h = refl
take_all zero (x ∷ xs) h = absurd (omega arith)
take_all (suc n) (x ∷ xs) h = ap (λ l. x ∷ l) (take_all n xs (omega arith))

length-drop_le : (p : ℕ) (xs : List Instance) → length (drop p xs) ≤ length xs - p
length-drop_le zero xs = omega arith
length-drop_le (suc p) [] = omega arith
length-drop_le (suc p) (x ∷ xs) = omega (arith, length-drop_le p xs)

-- One cycle of picks is the list of candidates, rotated.
elems-rotation :
    (c : ℕ) (xs : List Instance)
    → 0 < length xs
    → elems (length xs) c xs
      ≡ map some (drop ((c + 1) % length xs) xs ++ take ((c + 1) % length xs) xs)
elems-rotation c xs h =
    let n = length xs in
    let p = (c + 1) % n in
    let q = (c + 1) / n in
    let below : p < n = omega arith in
    let at : c + 1 ≡ q * n + p = grind arith in
    let whole : n ≡ (n - p) + p = omega arith in
    let first = elems-take (n - p) c q p xs at (omega arith) in
    let second = elems-take p (c + (n - p)) (suc q) 0 xs (grind arith) (omega arith) in
    let tail_all = take_all (n - p) (drop p xs) (length-drop_le p xs) in
    ap (λ k. elems k c xs) whole
    ∙ elems-append (n - p) p c xs
    ∙ ap₂ (λ a b. a ++ b) (first ∙ ap (map some) tail_all) second
    ∙ sym (map-append some (drop p xs) (take p xs))

-- How many of the picks are instances that `p` holds of.
abbrev pub tally : (Instance → Bool) → List (Option Instance) → ℕ
tally p [] = 0
tally p (none ∷ os) = tally p os
tally p (some x ∷ os) = (if p x then 1 else 0) + tally p os

-- The weight of the candidates that `p` holds of, each counted as often as it stands in the list.
abbrev pub weight_of : (Instance → ℕ) → (Instance → Bool) → List Instance → ℕ
weight_of w p [] = 0
weight_of w p (x ∷ xs) = (if p x then w x else 0) + weight_of w p xs

tally-append :
    (p : Instance → Bool) (xs ys : List Instance)
    → tally p (map some (xs ++ ys)) ≡ tally p (map some xs) + tally p (map some ys)
tally-append p [] ys = omega arith
tally-append p (x ∷ xs) ys = omega (arith, tally-append p xs ys)

tally-split :
    (p : Instance → Bool) (k : ℕ) (xs : List Instance)
    → tally p (map some (take k xs)) + tally p (map some (drop k xs)) ≡ tally p (map some xs)
tally-split p zero xs = omega arith
tally-split p (suc k) [] = omega arith
tally-split p (suc k) (x ∷ xs) = omega (arith, tally-split p k xs)

tally-one :
    (p : Instance → Bool) (xs : List Instance) → tally p (map some xs) ≡ weight_of (λ x. 1) p xs
tally-one p [] = refl
tally-one p (x ∷ xs) = omega (arith, tally-one p xs)

tally-replicate :
    (p : Instance → Bool) (n : ℕ) (x : Instance)
    → tally p (map some (replicate n x)) ≡ (if p x then n else 0)
tally-replicate p zero x = ground arith
tally-replicate p (suc n) x = ground (arith, tally-replicate p n x)

tally-expand :
    (p : Instance → Bool) (xs : List Instance)
    → tally p (map some (expand xs)) ≡ weight_of weight p xs
unfolding expand
tally-expand p [] = refl
tally-expand p (x ∷ xs) = omega (
  arith,
  tally-append p (replicate (weight x) x) (expand xs),
  tally-replicate p (weight x) x,
  tally-expand p xs,
)

tally-rotation :
    (p : Instance → Bool) (k : ℕ) (xs : List Instance)
    → tally p (map some (drop k xs ++ take k xs)) ≡ tally p (map some xs)
tally-rotation p k xs = omega (arith, tally-append p (drop k xs) (take k xs), tally-split p k xs)

tally-picks :
    (p : Instance → Bool) (c : ℕ) (lb : LoadBalancer) (name : String) (xs : List Instance)
    → count_of name lb.round_robin_idx ≡ pos c
    → c + length xs ≤ max_int64
    → tally p (picks (length xs) lb name xs) ≡ tally p (map some xs)
tally-picks p c lb name [] e h = refl
tally-picks p c lb name (x ∷ xs) e h =
    ap (tally p) (
      picks-elems (length (x ∷ xs)) c lb name (x ∷ xs) e h
      ∙ elems-rotation c (x ∷ xs) (omega arith))
    ∙ tally-rotation p ((c + 1) % length (x ∷ xs)) (x ∷ xs)

-- As many consecutive round-robin calls as there are candidates pick every candidate once: for any
-- test on instances, they pick one that passes as often as one stands in the list. The counter must
-- be c ≥ 0 before, and not pass the largest int64.
pub picks_fair :
    (p : Instance → Bool) (c : ℕ) (lb : LoadBalancer) (name : String) (xs : List Instance)
    → count_of name lb.round_robin_idx ≡ pos c
    → c + length xs ≤ max_int64
    → tally p (picks (length xs) lb name xs) ≡ weight_of (λ x. 1) p xs
picks_fair p c lb name xs e h = tally-picks p c lb name xs e h ∙ tally-one p xs

-- The instances that consecutive calls of `selectWeightedRoundRobin` pick.
abbrev pub weighted_picks : ℕ → LoadBalancer → String → List Instance → List (Option Instance)
weighted_picks zero lb name xs = []
weighted_picks (suc k) lb name xs =
    let (lb', o) = select_weighted_round_robin lb name xs in
    let rest = weighted_picks k lb' name xs in o ∷ rest

weighted_picks-picks :
    (k : ℕ) (lb : LoadBalancer) (name : String) (xs : List Instance)
    → weighted_picks k lb name xs ≡ picks k lb (name +ₛ "-weighted") (expand xs)
unfolding select_weighted_round_robin
weighted_picks-picks zero lb name xs = refl
weighted_picks-picks (suc k) lb name xs =
    let (lb', o) = select_weighted_round_robin lb name xs in
    ap (λ l. o ∷ l) (weighted_picks-picks k lb' name xs)

length-map-some : (xs : List Instance) → tally (λ x. true) (map some xs) ≡ length xs
length-map-some [] = refl
length-map-some (x ∷ xs) = omega (arith, length-map-some xs)

-- The cycle of weighted round-robin is as long as the weights sum up to.
pub length-expand : (xs : List Instance) → length (expand xs) ≡ weight_of weight (λ x. true) xs
length-expand xs = sym (length-map-some (expand xs)) ∙ tally-expand (λ x. true) xs

abbrev positive_number : Option ℤ → ℕ
positive_number none = 1
positive_number (some (negsuc n)) = 1
positive_number (some (pos zero)) = 1
positive_number (some (pos (suc n))) = suc n

abbrev weight_in : Option String → ℕ
weight_in none = 1
weight_in (some text) = positive_number (atoi text)

-- The weight that the metadata declare: the number under `weight`, if it is one and positive, else 1.
abbrev pub declared_weight : Instance → ℕ
declared_weight inst = weight_in (lookup "weight" inst.metadata)

-- what all the declared weights sum up to
abbrev pub cycle_length : List Instance → ℕ
cycle_length xs = weight_of declared_weight (λ x. true) xs

positive_number_lem :
    (o : Option ℤ)
    → (elim o [ none ↦ 1 | some (pos n) ↦ if ltb 0 n then n else 1 | some (negsuc n) ↦ 1 ])
      ≡ positive_number o
positive_number_lem none = refl
positive_number_lem (some (negsuc n)) = refl
positive_number_lem (some (pos zero)) = refl
positive_number_lem (some (pos (suc n))) = ground arith

weight-declared_weight : (x : Instance) → weight x ≡ declared_weight x
unfolding weight
weight-declared_weight x = elim (Option-cases (lookup "weight" x.metadata)) [
  | inl e ↦ rw (weight, e) refl
  | inr (text, e) ↦ rw (weight, e) (positive_number_lem (atoi text))
]

weight_of-declared_weight :
    (p : Instance → Bool) (xs : List Instance)
    → weight_of weight p xs ≡ weight_of declared_weight p xs
weight_of-declared_weight p [] = refl
weight_of-declared_weight p (x ∷ xs) =
    ap₂ (λ m n. (if p x then m else 0) + n) (weight-declared_weight x)
      (weight_of-declared_weight p xs)

-- Over one cycle, as many calls as the declared weights sum up to, weighted round-robin picks instances
-- that pass any given test as often as the weights of the candidates that pass it sum up to. A weight
-- is declared by the metadata, as a positive number under `weight`, and is 1 otherwise. The counter must
-- be c ≥ 0 before, and c plus the length of the cycle must not pass the largest int64.
pub weighted_picks_fair :
    (p : Instance → Bool) (c : ℕ) (lb : LoadBalancer) (name : String) (xs : List Instance)
    → count_of (name +ₛ "-weighted") lb.round_robin_idx ≡ pos c
    → c + cycle_length xs ≤ max_int64
    → tally p (weighted_picks (cycle_length xs) lb name xs) ≡ weight_of declared_weight p xs
weighted_picks_fair p c lb name xs e h =
    let whole = length-expand xs ∙ weight_of-declared_weight (λ x. true) xs in
    ap (λ k. tally p (weighted_picks k lb name xs)) (sym whole)
    ∙ ap (tally p) (weighted_picks-picks (length (expand xs)) lb name xs)
    ∙ tally-picks p c lb (name +ₛ "-weighted") (expand xs) e
        (subst (λ k. c + k ≤ max_int64) (sym whole) h)
    ∙ tally-expand p xs
    ∙ weight_of-declared_weight p xs
