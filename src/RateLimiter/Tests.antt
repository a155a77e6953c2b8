-- ===== src/RateLimiter/Tests.antt =====
-- Runs of a bucket of two tokens with one more each second.
use ai_switch.Base.{ℕ, ◌+◌, ◌*◌, ◌≤◌, ◌<◌, false, ◌≡◌, refl, List, [], ◌∷◌, some, arith}
use ai_switch.Base.Int.{pos, pos_part}
use ai_switch.RateLimiter.{TokenBucket, new_bucket, seconds, refill, try_acquire}
use ai_switch.RateLimiter.Bounds.{IsValid, IsAcquire, consumed, try_acquire_total}
use ai_switch.RateLimiter.Budget.{Readings, acquire_all, acquire_all-new_bucket}
use ai_switch.RateLimiter.Race.{Shared, Reach, here, next, enter, pass, load, exchange, start}
use ai_switch.RateLimiter.Race.Safety.{Reach-granted}
use ai_switch.RateLimiter.Race.Lost.{lost_updates}

abbrev second : ℕ
second = 1000000000

abbrev bucket : TokenBucket
bucket = record { tokens = pos 2; capacity = pos 2; refill_rate = pos 1; last_refill = 0 }

abbrev calls : List Readings
calls = record { now = 0; now2 = 0 } ∷ record { now = second; now2 = second } ∷ []

bucket-IsValid : IsValid bucket
bucket-IsValid = omega arith

acquire_all-new_bucket_example :
    (b' : TokenBucket) × (n : ℕ) × (acquire_all calls (new_bucket (pos 2) (pos 1) 0) ≡ some (b', n))
    × IsValid b'
    × (n + pos_part b'.tokens ≤ 2 + seconds 0 second * 1)
unfolding seconds
acquire_all-new_bucket_example =
    acquire_all-new_bucket (pos 2) (pos 1) 0 second calls (omega arith) (omega arith) (omega arith)
      (omega arith) (omega arith, (omega arith, tt))

try_acquire_total_example :
    (b' : TokenBucket) × (refill second second bucket ≡ some b')
    × (try_acquire second second (pos 1) bucket ≡ some (consumed (pos 1) b'))
    × IsAcquire (pos 1) bucket (consumed (pos 1) b').0 second (consumed (pos 1) b').1
unfolding seconds
try_acquire_total_example =
    try_acquire_total second second (pos 1) bucket bucket-IsValid (omega arith) (omega arith)

-- A thread that takes one of the two tokens.
abbrev first : Shared
first = start 2 1 0

one_taken :
    (s : Shared) × Reach first s
    × (s.tokens ≡ 1)
    × (s.granted ≡ 1)
    × (s.time ≡ 0)
    × (s.last_refill ≡ 0)
unfolding seconds
one_taken = (
  _,
  next (next (next (next here (enter 0 refl)) (pass 0 0 refl (omega arith))) (load 0 refl))
      (exchange 0 1 refl refl),
  refl,
  refl,
  refl,
  refl,
)

Reach-granted_example :
    (one_taken.0.overflown ≡ false)
    × (one_taken.0.tokens ≤ 2)
    × (one_taken.0.granted + one_taken.0.tokens ≤ (seconds 0 one_taken.0.last_refill + 1) * 2)
unfolding seconds
Reach-granted_example = Reach-granted 2 1 0 0 one_taken.1 (omega (arith, one_taken.4)) (omega arith)

lost_updates_example :
    (t : Shared) × Reach (start 3 1 0) t
    × (t.tokens ≡ 3)
    × (t.granted ≡ 2)
    × (t.stores ≡ 1)
    × (t.overflown ≡ false)
    × (3 + seconds 0 t.time * 1 < t.granted + t.tokens)
lost_updates_example = lost_updates 3 1 0 2 (omega arith) (omega arith) (omega arith)
