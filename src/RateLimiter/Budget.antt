-- ===== src/RateLimiter/Budget.antt =====
-- How many requests a token bucket lets through over any history of calls.
use ai_switch.Base.{
  ℕ, ◌+◌, ◌*◌, ◌^◌, ◌≤◌, ◌<◌, ◌≡◌, refl, Bool, Option, none, some, arith, List, [], ◌∷◌, All, ap,
}
use ai_switch.Base.Int.{ℤ, pos, ◌≤ℤ◌, pos_part}
use ai_switch.RateLimiter.{TokenBucket, new_bucket, seconds, try_acquire}
use ai_switch.RateLimiter.Bounds.{
  IsValid, Fits, IsAcquire, try_acquire_total, consumed, spent, new_bucket-IsValid,
}

-- The two clock readings of a call.
pub record Readings : Type 0 where
  pub now : ℕ
  pub now2 : ℕ

abbrev pub counted : Bool → Option (TokenBucket × ℕ) → Option (TokenBucket × ℕ)
counted granted none = none
counted granted (some (b, n)) = some (b, spent granted (pos 1) + n)

-- One call after the other, as the middleware makes them, for one token each, with the number of
-- those that were granted.
unfoldable pub acquire_all : List Readings → TokenBucket → Option (TokenBucket × ℕ)
acquire_all [] b = some (b, 0)
acquire_all (r ∷ rs) b = elim (try_acquire r.now r.now2 (pos 1) b) [
  | none ↦ none
  | some (b', granted) ↦ counted granted (acquire_all rs b')
]

pub seconds_split : (a b c : ℕ) → a ≤ b → b ≤ c → seconds a b + seconds b c ≤ seconds a c
unfolding seconds
seconds_split a b c h k = omega arith

seconds_mono : (a b c d : ℕ) → b ≤ a → c ≤ d → seconds a c ≤ seconds b d
unfolding seconds
seconds_mono a b c d h k = omega arith

pub mul_mono : (x y r : ℕ) → x ≤ y → x * r ≤ y * r
mul_mono x y r h = grind arith

Fits-earlier : (b : TokenBucket) (now until : ℕ) → now ≤ until → Fits b until → Fits b now
Fits-earlier b now until le h = omega (
  arith,
  mul_mono (seconds b.last_refill now) (seconds b.last_refill until) (pos_part b.refill_rate)
      (seconds_mono b.last_refill b.last_refill now until (omega arith) le),
)

-- What a history of calls did to a valid bucket.
pub record IsHistory (b b' : TokenBucket) (until n : ℕ) : Type 0 where
  pub valid : IsValid b'
  pub later : b.last_refill ≤ b'.last_refill
  pub in_time : b'.last_refill ≤ until
  pub budget :
      n + pos_part b'.tokens
      ≤ pos_part b.tokens + seconds b.last_refill b'.last_refill * pos_part b.refill_rate

module _ {n : ℤ} {b b' : TokenBucket} {now2 until : ℕ} {granted : Bool}
    (a : IsAcquire n b b' now2 granted) (early : b.last_refill ≤ until)
    (now_early : now2 ≤ until) where
  still_early : b'.last_refill ≤ until
  still_early = omega (arith, a.at_now)

  Fits-after : Fits b until → Fits b' until
  Fits-after h =
      rw (a.same_capacity, a.same_rate)
        (omega (
          arith,
          h,
          mul_mono (seconds b'.last_refill until) (seconds b.last_refill until)
              (pos_part b.refill_rate)
              (seconds_mono b'.last_refill b.last_refill until until a.later (omega arith)),
        ))

  IsHistory-cons :
      {b'' : TokenBucket} {k : ℕ}
      → IsHistory b' b'' until k
      → IsHistory b b'' until (spent granted n + k)
  IsHistory-cons {b''} {k} i = record {
    valid = i.valid;
    later = omega (arith, a.later, i.later);
    in_time = i.in_time;
    budget =
        let r = pos_part b.refill_rate in
        let first = seconds b.last_refill b'.last_refill in
        let rest = seconds b'.last_refill b''.last_refill in
        let tail : k + pos_part b''.tokens ≤ pos_part b'.tokens + rest * r =
          rw (← ap pos_part a.same_rate) i.budget in
        let all : (first + rest) * r ≤ seconds b.last_refill b''.last_refill * r =
          mul_mono (first + rest) (seconds b.last_refill b''.last_refill) r
            (seconds_split b.last_refill b'.last_refill b''.last_refill a.later i.later) in
        omega (arith, a.budget);
  }

-- A history of calls, whose readings are not after `until`, always returns, without overflow while
-- the tokens of the whole time fit. It keeps the bucket valid. The calls that it grants and the
-- tokens left at the end are together no more than the tokens at the start and those of the seconds
-- that `last_refill` moved on.
pub acquire_all_total :
    (until : ℕ) (rs : List Readings) (b : TokenBucket)
    → IsValid b
    → Fits b until
    → b.last_refill ≤ until
    → All (λ (r : Readings). r.now2 ≤ until) rs
    → (b' : TokenBucket) × (n : ℕ) × (acquire_all rs b ≡ some (b', n)) × IsHistory b b' until n
unfolding acquire_all
acquire_all_total until [] b v h early _ =
    (b, 0, refl, record { valid = v; later = omega arith; in_time = early; budget = omega arith })
acquire_all_total until (r ∷ rs) b v h early (on_time, others) =
    let (b', _, e, a) =
      try_acquire_total r.now r.now2 (pos 1) b v (Fits-earlier b r.now2 until on_time h)
        (omega arith) in
    let (b'', n, e', i) =
      acquire_all_total until rs (consumed (pos 1) b').0 a.valid (Fits-after a early on_time h)
        (still_early a early on_time) others in
    (
      b'',
      spent (consumed (pos 1) b').1 (pos 1) + n,
      rw (e, acquire_all, e'),
      IsHistory-cons a early on_time i,
    )

-- From a new bucket, whose limits are not negative and whose tokens for the whole time fit in an
-- int64_t, no history of calls with readings up to `until` gets more than the capacity and the
-- tokens of the whole seconds since the start; it returns, and the bucket stays between empty and
-- full.
pub acquire_all-new_bucket :
    (capacity rate : ℤ) (start until : ℕ) (rs : List Readings)
    → pos 0 ≤ℤ capacity
    → pos 0 ≤ℤ rate
    → pos_part capacity + seconds start until * pos_part rate < 2 ^ 63
    → start ≤ until
    → All (λ (r : Readings). r.now2 ≤ until) rs
    → (b' : TokenBucket) × (n : ℕ) × (acquire_all rs (new_bucket capacity rate start)
        ≡ some (b', n))
      × IsValid b'
      × (n + pos_part b'.tokens ≤ pos_part capacity + seconds start until * pos_part rate)
unfolding new_bucket
acquire_all-new_bucket capacity rate start until rs c r h s on_time =
    let (b', n, e, i) =
      acquire_all_total until rs (new_bucket capacity rate start)
        (new_bucket-IsValid capacity rate start c (omega arith) r) h s on_time in
    (
      b',
      n,
      e,
      i.valid,
      omega (
        arith,
        i.budget,
        mul_mono (seconds start b'.last_refill) (seconds start until) (pos_part rate)
            (seconds_mono start start b'.last_refill until (omega arith) i.in_time),
      ),
    )
