-- ===== src/Tests/Bucket.antt =====
-- The scenarios of tests/test_rate_limiter.cpp that one thread runs, on the model of the bucket.
use ai_switch.Base.{ℕ, zero, suc, ◌+◌, ◌≡◌, refl, Bool, true, false, not, ◌&&◌, Option, none, some}
use ai_switch.Base.Int.{pos, ◌+ℤ◌, ◌-ℤ◌, ◌*ℤ◌}
use ai_switch.RateLimiter.{
  TokenBucket, new_bucket, seconds, int64, add_tokens, refill_locked, refill, take_tokens, consume,
  try_acquire, update_config,
}

-- How many of a number of calls in a row, all at one time, get their token.
granted : ℕ → ℕ → TokenBucket → Option (ℕ × TokenBucket)
granted zero now b = some (0, b)
granted (suc n) now b = elim (try_acquire now now (pos 1) b) [
  | none ↦ none
  | some (b', got) ↦ elim (granted n now b') [
    | none ↦ none
    | some (k, after) ↦ elim got [ true ↦ some (k + 1, after) | false ↦ some (k, after) ]
  ]
]

-- `none` where a call overflows.
count_of : Option (ℕ × TokenBucket) → Option ℕ
count_of none = none
count_of (some (k, b)) = some k

-- So many calls at the start, and then so many at a later time.
then_granted : ℕ → ℕ → ℕ → TokenBucket → Option ℕ
unfolding granted count_of
then_granted first later second b = elim (granted first 0 b) [
  | none ↦ none
  | some (k, after) ↦ count_of (granted second later after)
]

abbrev bucket : TokenBucket
bucket = record { tokens = pos 10; capacity = pos 10; refill_rate = pos 5; last_refill = 0 }

new_run : new_bucket (pos 10) (pos 5) 0 ≡ bucket
unfolding new_bucket
new_run = refl

-- Ten calls succeed, and the eleventh does not.
initial_full : count_of (granted 11 0 bucket) ≡ some 10
unfolding granted count_of try_acquire refill seconds consume take_tokens int64 ◌-ℤ◌
initial_full = refl

-- 1.1 seconds later five calls of six succeed.
refill_run : then_granted 10 1100000000 6 bucket ≡ some 5
unfolding then_granted granted count_of try_acquire refill refill_locked add_tokens seconds consume
    take_tokens int64 ◌-ℤ◌ ◌+ℤ◌ ◌*ℤ◌
refill_run = refl

-- An update while the bucket is empty; 1.1 seconds later ten calls of twelve succeed.
emptied_then_updated : Option (ℕ × TokenBucket) → Option ℕ
unfolding granted count_of
emptied_then_updated none = none
emptied_then_updated (some (k, b)) =
    count_of (granted 12 1100000000 (update_config (pos 20) (pos 10) b))

update_run :
    emptied_then_updated
      (granted 5 0 (record bucket { tokens = pos 5; capacity = pos 5; refill_rate = pos 1 }))
    ≡ some 10
unfolding emptied_then_updated granted count_of try_acquire refill refill_locked add_tokens seconds
    consume take_tokens update_config int64 ◌-ℤ◌ ◌+ℤ◌ ◌*ℤ◌
update_run = refl

-- Five and then fifteen at once, after which one more gets nothing.
two_at_once : Option (TokenBucket × Bool) → Option (TokenBucket × Bool)
two_at_once none = none
two_at_once (some (b, got)) = elim (try_acquire 0 0 (pos 15) b) [
  | none ↦ none
  | some (b', got') ↦ elim (try_acquire 0 0 (pos 1) b') [
    | none ↦ none
    | some (c, last) ↦ some (c, got && got' && not last)
  ]
]

abbrev big : TokenBucket
big = record { tokens = pos 20; capacity = pos 20; refill_rate = pos 10; last_refill = 0 }

multiple_run :
    two_at_once (try_acquire 0 0 (pos 5) big) ≡ some (record big { tokens = pos 0 }, true)
unfolding two_at_once try_acquire refill seconds consume take_tokens int64 ◌-ℤ◌
multiple_run = refl
