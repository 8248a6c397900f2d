-- ===== src/Gateway/RateLimiter.antt =====
-- internal/gateway/middleware.go: the fixed-window rate limiter. `allow` and a round of `evictLoop` hold
-- the lock, so each is one step; instants are nanoseconds, and not 0, and durations are signed.
pub mod Window
pub mod Evict
use toska_mesh.Prelude.{
  ℕ, String, Bool, true, false, Option, none, some, [], ◌∷◌, ltb, if◌then◌else◌,
}
use toska_mesh.Prelude.Int.{ℤ, pos, leb_ℤ, add64, seconds, instant_after}
use toska_mesh.Prelude.Dict.{Dict, lookup, insert}

pub record Bucket : Type 0 where
  pub count : ℤ
  pub reset_at : ℕ

pub record RateLimiter : Type 0 where
  pub buckets : Dict Bucket
  pub limit : ℤ
  pub window : ℤ

-- `NewRateLimiter`
unfoldable pub new_rate_limiter : ℤ → ℤ → RateLimiter
new_rate_limiter limit window_seconds = record {
  buckets = [];
  limit = limit;
  window = seconds window_seconds;
}

-- the new bucket of `allow`
abbrev pub fresh : RateLimiter → ℕ → Bucket
fresh rl now = record { count = pos 1; reset_at = instant_after now rl.window }

abbrev pub store : RateLimiter → String → Bucket → RateLimiter
store rl key bucket = record rl { buckets = insert key bucket rl.buckets }

-- `allow`, with the bucket that the map has for the key
unfoldable pub allow_bucket : RateLimiter → String → ℕ → Option Bucket → RateLimiter × Bool
allow_bucket rl key now none = (store rl key (fresh rl now), true)
allow_bucket rl key now (some bucket) =
    if ltb bucket.reset_at now
    then (store rl key (fresh rl now), true)
    else if leb_ℤ rl.limit bucket.count
    then (rl, false)
    else (store rl key (record bucket { count = add64 bucket.count (pos 1) }), true)

-- `allow`
unfoldable pub allow : RateLimiter → String → ℕ → RateLimiter × Bool
unfolding allow_bucket
allow rl key now = allow_bucket rl key now (lookup key rl.buckets)

-- the buckets whose window is over are deleted
unfoldable pub delete_expired : ℕ → Dict Bucket → Dict Bucket
delete_expired now [] = []
delete_expired now ((key, bucket) ∷ m) =
    let rest = delete_expired now m in
    if ltb bucket.reset_at now then rest else (key, bucket) ∷ rest

-- one round of `evictLoop`
unfoldable pub evict : RateLimiter → ℕ → RateLimiter
evict rl now = record rl { buckets = delete_expired now rl.buckets }
