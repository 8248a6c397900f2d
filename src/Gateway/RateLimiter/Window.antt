-- ===== src/Gateway/RateLimiter/Window.antt =====
-- How many requests of a key pass in one window.
use Prim.Native.Nat.{min, max}
use toska_mesh.Prelude.{
  ℕ, suc, ◌+◌, ◌-◌, ◌≤◌, ◌<◌, String, ◌≡◌, refl, sym, ap, ◌∙◌, ◌≢◌, inl, inr, Bool, true, not, ◌||◌,
  Option, none, some, List, [], ◌∷◌, arith, ltb, if◌then◌else◌, lt→ltb, Option-cases, length, All,
}
use toska_mesh.Prelude.Int.{ℤ, pos, leb_ℤ, max_int64, add64, instant_after}
use toska_mesh.Prelude.Dict.{lookup, lookup-insert_self, lookup-insert_ne}
use toska_mesh.Gateway.RateLimiter.{Bucket, RateLimiter, fresh, store, allow}

-- The number of requests of one key that pass, at consecutive instants, and the limiter after them.
abbrev pub passed : RateLimiter → String → List ℕ → RateLimiter × ℕ
passed rl key [] = (rl, 0)
passed rl key (now ∷ ts) =
    let (rl', ok) = allow rl key now in
    let (rl'', n) = passed rl' key ts in (rl'', (if ok then 1 else 0) + n)

-- what is left of the limit in a window in which `count` requests have passed
abbrev room : ℕ → ℕ → ℕ
room limit count = limit - count

passed-window :
    (rl : RateLimiter) (key : String) (ts : List ℕ) (bucket : Bucket) (count limit : ℕ)
    → lookup key rl.buckets ≡ some bucket
    → bucket.count ≡ pos count
    → rl.limit ≡ pos limit
    → limit ≤ max_int64
    → All (λ now. now ≤ bucket.reset_at) ts
    → (passed rl key ts).1 ≡ min (length ts) (limit - count)
unfolding allow add64
passed-window rl key [] bucket count limit b c l m h = ground arith
passed-window rl key (now ∷ ts) bucket count limit b c l m h =
    let bucket' : Bucket = record bucket { count = add64 bucket.count (pos 1) } in
    ground (
      arith,
      passed-window rl key ts bucket count limit,
      passed-window (store rl key bucket') key ts bucket' (count + 1) limit,
      lookup-insert_self key bucket' rl.buckets,
    )

allow-new_window :
    (rl : RateLimiter) (key : String) (now : ℕ)
    → ((bucket : Bucket) → lookup key rl.buckets ≡ some bucket → bucket.reset_at < now)
    → allow rl key now ≡ (store rl key (fresh rl now), true)
unfolding allow
allow-new_window rl key now n = elim (Option-cases (lookup key rl.buckets)) [
  | inl e ↦ rw (e, allow)
  | inr (bucket, e) ↦ rw (e, lt→ltb _ _ (n bucket e), allow)
]

-- A key whose window is over, or that has none, opens a window by its request at `now`, which passes.
-- Of it and the requests of the key up to the end of the window, as many pass as the limit allows:
-- all of them up to the limit, but never none.
pub passed-new_window :
    (rl : RateLimiter) (key : String) (now : ℕ) (ts : List ℕ) (limit : ℕ)
    → ((bucket : Bucket) → lookup key rl.buckets ≡ some bucket → bucket.reset_at < now)
    → rl.limit ≡ pos limit
    → limit ≤ max_int64
    → All (λ t. t ≤ instant_after now rl.window) ts
    → (passed rl key (now ∷ ts)).1 ≡ min (suc (length ts)) (max 1 limit)
unfolding allow
passed-new_window rl key now ts limit n l m h =
    let rl' = store rl key (fresh rl now) in
    let stored = lookup-insert_self key (fresh rl now) rl.buckets in
    let rest = passed-window rl' key ts (fresh rl now) 1 limit stored refl l m h in
    rw (allow-new_window rl key now n) (omega (arith, rest))

-- The answer of `allow`, from the limit and the bucket of the key.
answer : ℤ → ℕ → Option Bucket → Bool
answer limit now none = true
answer limit now (some bucket) = ltb bucket.reset_at now || not (leb_ℤ limit bucket.count)

allow-answer :
    (rl : RateLimiter) (key : String) (now : ℕ)
    → (allow rl key now).1 ≡ answer rl.limit now (lookup key rl.buckets)
unfolding allow answer
allow-answer rl key now = ground arith

lookup-allow_other :
    (rl : RateLimiter) (key other : String) (now : ℕ)
    → key ≢ other
    → lookup other (allow rl key now).0.buckets ≡ lookup other rl.buckets
unfolding allow
lookup-allow_other rl key other now n = elim (Option-cases (lookup key rl.buckets)) [
  | inl e ↦ rw (e, allow) (lookup-insert_ne key other (fresh rl now) rl.buckets n)
  | inr (bucket, e) ↦
      let more : Bucket = record bucket { count = add64 bucket.count (pos 1) } in
      rw (e, allow)
        (ground (
          arith,
          lookup-insert_ne key other (fresh rl now) rl.buckets n,
          lookup-insert_ne key other more rl.buckets n,
        ))
]

limit-allow : (rl : RateLimiter) (key : String) (now : ℕ) → (allow rl key now).0.limit ≡ rl.limit
unfolding allow
limit-allow rl key now = ground arith

-- A request of one key changes no other key's bucket, so it takes nothing from that key's limit.
pub allow-other :
    (rl : RateLimiter) (key other : String) (now later : ℕ)
    → key ≢ other
    → (allow (allow rl key now).0 other later).1 ≡ (allow rl other later).1
allow-other rl key other now later n =
    let rl' = (allow rl key now).0 in
    allow-answer rl' other later
    ∙ ap (λ o. answer rl'.limit later o) (lookup-allow_other rl key other now n)
    ∙ ap (λ l. answer l later (lookup other rl.buckets)) (limit-allow rl key now)
    ∙ sym (allow-answer rl other later)
