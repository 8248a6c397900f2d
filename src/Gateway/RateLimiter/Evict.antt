-- ===== src/Gateway/RateLimiter/Evict.antt =====
-- Evicting expired buckets is not seen by any client.
use toska_mesh.Prelude.{
  ℕ, ◌≤◌, String, ◌≡◌, refl, sym, ap, ◌∙◌, inl, inr, Bool, Option, none, some, List, [], ◌∷◌, arith,
  eq_iff, ltb, if◌then◌else◌, Bool-cases, Option-cases,
}
use toska_mesh.Prelude.Dict.{Dict, lookup, lookup-insert, HasDistinctKeys}
use toska_mesh.Gateway.RateLimiter.{
  Bucket, RateLimiter, fresh, store, allow_bucket, allow, delete_expired, evict,
}
use toska_mesh.Prelude.Int.{pos, leb_ℤ, add64}

-- The answers to requests, each with its key and its instant.
abbrev pub answers : RateLimiter → List (String × ℕ) → List Bool
answers rl [] = []
answers rl ((key, now) ∷ rs) =
    let (rl', ok) = allow rl key now in let rest = answers rl' rs in ok ∷ rest

-- The instants do not go back, from `t` on.
abbrev pub IsOrdered : ℕ → List (String × ℕ) → Type 0
IsOrdered t [] = Unit
IsOrdered t ((key, now) ∷ rs) = (t ≤ now) × IsOrdered now rs

-- a bucket whose window is not over at `t`
abbrev live : ℕ → Option Bucket → Option Bucket
live t none = none
live t (some bucket) = if ltb bucket.reset_at t then none else some bucket

-- Two limiters that differ in expired buckets only.
record IsAlike (t : ℕ) (rl rl' : RateLimiter) : Type 0 where
  limits : rl.limit ≡ rl'.limit
  windows : rl.window ≡ rl'.window
  alike : (key : String) → live t (lookup key rl.buckets) ≡ live t (lookup key rl'.buckets)

live-later : (t now : ℕ) (o : Option Bucket) → t ≤ now → live now (live t o) ≡ live now o
live-later t now o h = ground arith

-- An expired bucket counts for `allow` as none.
allow-live :
    (rl : RateLimiter) (key : String) (now : ℕ)
    → allow rl key now ≡ allow_bucket rl key now (live now (lookup key rl.buckets))
unfolding allow
allow-live rl key now = elim (Option-cases (lookup key rl.buckets)) [
  | inl e ↦ rw (e, allow)
  | inr (bucket, e) ↦ rw (e, allow) (ground arith)
]

fresh-alike :
    (now : ℕ) (rl rl' : RateLimiter) → rl.window ≡ rl'.window → fresh rl now ≡ fresh rl' now
fresh-alike now rl rl' e = ground arith

IsAlike-store :
    (now : ℕ) (rl rl' : RateLimiter) (key : String) (bucket : Bucket)
    → IsAlike now rl rl'
    → IsAlike now (store rl key bucket) (store rl' key bucket)
IsAlike-store now rl rl' key bucket a = record {
  limits = a.limits;
  windows = a.windows;
  alike = λ k. ground (
    arith,
    lookup-insert key k bucket rl.buckets,
    lookup-insert key k bucket rl'.buckets,
    a.alike k,
  );
}

allow_bucket-IsAlike :
    (now : ℕ) (rl rl' : RateLimiter) (key : String) (o : Option Bucket)
    → IsAlike now rl rl'
    → ((allow_bucket rl key now o).1 ≡ (allow_bucket rl' key now o).1)
      × IsAlike now (allow_bucket rl key now o).0 (allow_bucket rl' key now o).0
unfolding allow_bucket
allow_bucket-IsAlike now rl rl' key none a =
    (refl, rw (fresh-alike now rl rl' a.windows) (IsAlike-store now rl rl' key (fresh rl' now) a))
allow_bucket-IsAlike now rl rl' key (some bucket) a = elim (Bool-cases (ltb bucket.reset_at now)) [
  | inl e ↦
      rw (e, fresh-alike now rl rl' a.windows)
        (refl, IsAlike-store now rl rl' key (fresh rl' now) a)
  | inr e ↦
      let more : Bucket = record bucket { count = add64 bucket.count (pos 1) } in
      let same = ap (λ l. leb_ℤ l bucket.count) (sym a.limits) in
      elim (Bool-cases (leb_ℤ rl.limit bucket.count)) [
        | inl f ↦ rw (e, f, same ∙ f) (refl, a)
        | inr f ↦ rw (e, f, same ∙ f) (refl, IsAlike-store now rl rl' key more a)
      ]
]

allow-IsAlike :
    (t now : ℕ) (rl rl' : RateLimiter) (key : String)
    → t ≤ now
    → IsAlike t rl rl'
    → ((allow rl key now).1 ≡ (allow rl' key now).1)
      × IsAlike now (allow rl key now).0 (allow rl' key now).0
allow-IsAlike t now rl rl' key h a =
    let later : IsAlike now rl rl' = record {
      limits = a.limits;
      windows = a.windows;
      alike = λ k.
          sym (live-later t now (lookup k rl.buckets) h)
          ∙ ap (live now) (a.alike k)
          ∙ live-later t now (lookup k rl'.buckets) h;
    } in
    rw (allow-live rl key now, allow-live rl' key now, later.alike key)
      (allow_bucket-IsAlike now rl rl' key (live now (lookup key rl'.buckets)) later)

answers-IsAlike :
    (t : ℕ) (rl rl' : RateLimiter) (rs : List (String × ℕ))
    → IsOrdered t rs
    → IsAlike t rl rl'
    → answers rl rs ≡ answers rl' rs
answers-IsAlike t rl rl' [] o a = refl
answers-IsAlike t rl rl' ((key, now) ∷ rs) o a =
    let step = allow-IsAlike t now rl rl' key o.0 a in
    cc (step.0, answers-IsAlike now (allow rl key now).0 (allow rl' key now).0 rs o.1 step.1)

lookup-delete_expired :
    (now : ℕ) (m : Dict Bucket) (key : String)
    → HasDistinctKeys m
    → lookup key (delete_expired now m) ≡ live now (lookup key m)
unfolding delete_expired lookup
lookup-delete_expired now [] key d = refl
lookup-delete_expired now ((k, bucket) ∷ m) key d =
    ground (arith, lookup-delete_expired now m key d.1, eq_iff k key)

live-live : (t : ℕ) (o : Option Bucket) → live t (live t o) ≡ live t o
live-live t o = ground arith

-- After a round of eviction at `now`, all requests from then on get the answers that they would have
-- got without it. (Their instants do not go back, and the map has no key twice.)
pub answers-evict :
    (rl : RateLimiter) (now : ℕ) (rs : List (String × ℕ))
    → HasDistinctKeys rl.buckets
    → IsOrdered now rs
    → answers (evict rl now) rs ≡ answers rl rs
unfolding evict
answers-evict rl now rs d o = answers-IsAlike now (evict rl now) rl rs o (record {
  limits = refl;
  windows = refl;
  alike = λ key.
      ap (live now) (lookup-delete_expired now rl.buckets key d)
      ∙ live-live now (lookup key rl.buckets);
})
