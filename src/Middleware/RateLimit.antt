-- ===== src/Middleware/RateLimit.antt =====
-- `rate_limiter_middleware` of src/middleware/rate_limiter.cpp. The arguments of `limit` are the
-- clock readings of its call of the bucket.
use ai_switch.Base.{Bool, Option, none, some, bytes, ℕ, if◌then◌else◌}
use ai_switch.Base.Int.{pos}
use ai_switch.Base.Result.{Result, ok, throw, fault}
use ai_switch.Json.{JsonLib}
use ai_switch.RateLimiter.{TokenBucket, try_acquire}
use ai_switch.Middleware.{Context, Middleware, reject}

-- An overflow of the bucket's counters is undefined.
abbrev pub run_bucket : Option (TokenBucket × Bool) → TokenBucket → Result Bool × TokenBucket
run_bucket none b = (fault, b)
run_bucket (some (b', granted)) b = (ok granted, b')

module _ (json : JsonLib) where
  abbrev pub limited : Context → Result Context
  limited = reject json 429 (bytes "rate_limited") (bytes "请求过于频繁, 请稍后重试")

  abbrev pub after_bucket : Context → Result Bool × TokenBucket → Result Context × TokenBucket
  after_bucket ctx (ok granted, b) = (if granted then ok ctx else limited ctx, b)
  after_bucket ctx (throw e, b) = (throw e, b)
  after_bucket ctx (fault, b) = (fault, b)

  unfoldable pub limit : ℕ → ℕ → Middleware TokenBucket
  limit now now2 ctx b = after_bucket ctx (run_bucket (try_acquire now now2 (pos 1) b) b)
