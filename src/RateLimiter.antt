-- ===== src/RateLimiter.antt =====
-- src/middleware/rate_limiter.h and src/middleware/rate_limiter.cpp: the token bucket, as one thread
-- uses it. A reading of the steady clock is an argument, in nanoseconds.
pub mod Bounds
pub mod Budget
pub mod Race
mod Tests
use ai_switch.Base.{
  ℕ, ◌+◌, ◌-◌, ◌/◌, ◌^◌, Bool, true, false, ◌&&◌, Option, none, some, if◌then◌else◌, ◌==◌, List, [],
  ◌∷◌,
}
use ai_switch.Base.Int.{ℤ, pos, negsuc, ◌+ℤ◌, ◌-ℤ◌, ◌*ℤ◌, leb_ℤ, ltb_ℤ}

pub record TokenBucket : Type 0 where
  pub tokens : ℤ
  pub capacity : ℤ
  pub refill_rate : ℤ
  pub last_refill : ℕ

-- An `int64_t` result: overflow of a signed type is undefined, here `none`.
unfoldable pub int64 : ℤ → Option ℤ
int64 x = if leb_ℤ (negsuc (2 ^ 63 - 1)) x && ltb_ℤ x (pos (2 ^ 63)) then some x else none

infixl 5 ◌>>=◌
abbrev pub ◌>>=◌ {ℓ κ} : {A : Type ℓ} {B : Type κ} → Option A → (A → Option B) → Option B
none >>= f = none
some a >>= f = f a

-- Constructor: the bucket is full at first.
unfoldable pub new_bucket : ℤ → ℤ → ℕ → TokenBucket
new_bucket capacity refill_per_second now = record {
  tokens = capacity;
  capacity = capacity;
  refill_rate = refill_per_second;
  last_refill = now;
}

-- Whole seconds from `last` to `now`; a reading before `last`, where the source has a number that is
-- not positive, gives 0 here, and both take the branch of `elapsed <= 0`.
unfoldable pub seconds : ℕ → ℕ → ℕ
seconds last now = (now - last) / 10 ^ 9

abbrev pub min_ℤ : ℤ → ℤ → ℤ
min_ℤ cap new = if ltb_ℤ cap new then cap else new

-- The store of the new number of tokens, `elapsed` seconds after the last one.
unfoldable pub add_tokens : ℕ → ℕ → TokenBucket → Option TokenBucket
add_tokens elapsed now2 b = do
  added ← int64 (pos elapsed *ℤ b.refill_rate)
  new_tokens ← int64 (b.tokens +ℤ added)
  some (record b { tokens = min_ℤ b.capacity new_tokens; last_refill = now2 })

-- What the mutex protects: `now2` is the reading made under it.
unfoldable pub refill_locked : ℕ → TokenBucket → Option TokenBucket
refill_locked now2 b =
    let elapsed = seconds b.last_refill now2 in
    if elapsed == 0 then some b else add_tokens elapsed now2 b

unfoldable pub refill : ℕ → ℕ → TokenBucket → Option TokenBucket
refill now now2 b = if seconds b.last_refill now == 0 then some b else refill_locked now2 b

unfoldable pub take_tokens : ℤ → TokenBucket → Option (TokenBucket × Bool)
take_tokens tokens b = do left ← int64 (b.tokens -ℤ tokens); some (record b { tokens = left }, true)

-- The loop of `try_acquire` where no other thread writes: the exchange succeeds.
unfoldable pub consume : ℤ → TokenBucket → Option (TokenBucket × Bool)
consume tokens b = if leb_ℤ tokens b.tokens then take_tokens tokens b else some (b, false)

unfoldable pub try_acquire : ℕ → ℕ → ℤ → TokenBucket → Option (TokenBucket × Bool)
try_acquire now now2 tokens b = do b' ← refill now now2 b; consume tokens b'

unfoldable pub update_config : ℤ → ℤ → TokenBucket → TokenBucket
update_config capacity refill_per_second b = record b {
  capacity = capacity;
  refill_rate = refill_per_second;
  tokens = min_ℤ capacity b.tokens;
}
