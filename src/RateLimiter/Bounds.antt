-- ===== src/RateLimiter/Bounds.antt =====
-- The number of tokens stays between 0 and the capacity, and nothing overflows.
use ai_switch.Base.{
  if◌then◌else◌, ℕ, ◌+◌, ◌*◌, ◌^◌, ◌≤◌, ◌<◌, ◌≡◌, refl, Bool, true, false, some, arith, ◌==◌, ◌⊎◌,
  inl, inr, Bool-cases, ◌∙◌,
}
use ai_switch.Base.Int.{
  ℤ, pos, ◌+ℤ◌, ◌-ℤ◌, ◌*ℤ◌, ◌≤ℤ◌, leb_ℤ, pos_part, neg_part, *ℤ_parts, neg_part-eq-zero, +ℤ_nonneg,
  -ℤ_nonneg,
}
use ai_switch.RateLimiter.{
  TokenBucket, int64, new_bucket, seconds, refill_locked, refill, consume, try_acquire,
  update_config, add_tokens, min_ℤ, take_tokens,
}

pub record IsValid (b : TokenBucket) : Type 0 where
  pub not_negative : pos 0 ≤ℤ b.tokens
  pub within : b.tokens ≤ℤ b.capacity
  pub rate : pos 0 ≤ℤ b.refill_rate
  pub fits : pos_part b.capacity < 2 ^ 63

-- The time that passes adds no more than an `int64_t` holds.
abbrev pub Fits : TokenBucket → ℕ → Type 0
Fits b now = pos_part b.capacity + seconds b.last_refill now * pos_part b.refill_rate < 2 ^ 63

int64-some : (x : ℤ) → pos 0 ≤ℤ x → pos_part x < 2 ^ 63 → int64 x ≡ some x
unfolding int64
int64-some x h k = ground arith

abbrev pub later : TokenBucket → ℕ → ℕ → TokenBucket
later b elapsed now2 = record b {
  tokens = min_ℤ b.capacity (b.tokens +ℤ pos elapsed *ℤ b.refill_rate);
  last_refill = now2;
}

-- What a refill may do to a valid bucket.
pub record IsRefill (b b' : TokenBucket) (now2 : ℕ) : Type 0 where
  pub valid : IsValid b'
  pub same_capacity : b'.capacity ≡ b.capacity
  pub same_rate : b'.refill_rate ≡ b.refill_rate
  pub later : b.last_refill ≤ b'.last_refill
  pub at_now : (b'.last_refill ≡ b.last_refill) ⊎ (b'.last_refill ≡ now2)
  pub budget :
      pos_part b'.tokens
      ≤ pos_part b.tokens + seconds b.last_refill b'.last_refill * pos_part b.refill_rate

module _ (b : TokenBucket) (elapsed now2 : ℕ) (v : IsValid b)
    (h : pos_part b.capacity + elapsed * pos_part b.refill_rate < 2 ^ 63) where
  added_parts :
      (pos_part (pos elapsed *ℤ b.refill_rate) ≡ elapsed * pos_part b.refill_rate)
      × (neg_part (pos elapsed *ℤ b.refill_rate) ≡ 0)
  added_parts = *ℤ_parts (pos elapsed) b.refill_rate refl (neg_part-eq-zero b.refill_rate v.rate)

  sum_parts :
      (pos_part (b.tokens +ℤ pos elapsed *ℤ b.refill_rate)
        ≡ pos_part b.tokens + elapsed * pos_part b.refill_rate)
      × (neg_part (b.tokens +ℤ pos elapsed *ℤ b.refill_rate) ≡ 0)
  sum_parts = omega (
    arith,
    added_parts,
    +ℤ_nonneg b.tokens (pos elapsed *ℤ b.refill_rate) (neg_part-eq-zero b.tokens v.not_negative)
        added_parts.1,
  )

  add_tokens_lem : add_tokens elapsed now2 b ≡ some (later b elapsed now2)
  unfolding add_tokens
  add_tokens_lem = rw (
    int64-some (pos elapsed *ℤ b.refill_rate) (omega (arith, added_parts))
        (omega (arith, added_parts)),
    int64-some (b.tokens +ℤ pos elapsed *ℤ b.refill_rate) (omega (arith, sum_parts))
        (omega (arith, sum_parts, neg_part-eq-zero b.tokens v.not_negative)),
  )

  later-IsValid : IsValid (later b elapsed now2)
  later-IsValid = ground (arith, sum_parts, v, neg_part-eq-zero b.tokens v.not_negative)

IsRefill-same : (b : TokenBucket) (now2 : ℕ) → IsValid b → IsRefill b b now2
IsRefill-same b now2 v = record {
  valid = v;
  same_capacity = refl;
  same_rate = refl;
  later = omega arith;
  at_now = inl refl;
  budget = omega arith;
}

pub seconds_later : (last now : ℕ) → (seconds last now == 0) ≡ false → last ≤ now
unfolding seconds
seconds_later last now h = ground arith

min_ℤ_bound : (cap x : ℤ) → neg_part x ≡ 0 → neg_part cap ≡ 0 → pos_part (min_ℤ cap x) ≤ pos_part x
min_ℤ_bound cap x h k = ground arith

IsRefill-later :
    (b : TokenBucket) (now2 : ℕ)
    → IsValid b
    → Fits b now2
    → (seconds b.last_refill now2 == 0) ≡ false
    → IsRefill b (later b (seconds b.last_refill now2) now2) now2
IsRefill-later b now2 v h e =
    let sum = sum_parts b (seconds b.last_refill now2) now2 v h in
    record {
      valid = later-IsValid b (seconds b.last_refill now2) now2 v h;
      same_capacity = refl;
      same_rate = refl;
      later = seconds_later b.last_refill now2 e;
      at_now = inr refl;
      budget = omega (
        arith,
        min_ℤ_bound b.capacity (b.tokens +ℤ pos (seconds b.last_refill now2) *ℤ b.refill_rate) sum.1
            (neg_part-eq-zero b.capacity (omega arith)),
        sum,
      );
    }

module _ (b : TokenBucket) (now now2 : ℕ) (v : IsValid b) (h : Fits b now2) where
  -- A valid bucket, where the tokens of the time that passed fit in an int64_t, is refilled without
  -- overflow: where a whole second has passed at both readings, the seconds' tokens are added up to
  -- the capacity; otherwise nothing changes.
  pub refill_exact : refill now now2 b ≡ (
      if seconds b.last_refill now == 0
      then some b
      else if seconds b.last_refill now2 == 0
      then some b
      else some (later b (seconds b.last_refill now2) now2))
  unfolding refill refill_locked
  refill_exact = rw (add_tokens_lem b (seconds b.last_refill now2) now2 v h)

  pub refill_total : (b' : TokenBucket) × (refill now now2 b ≡ some b') × IsRefill b b' now2
  refill_total = elim (Bool-cases (seconds b.last_refill now == 0)) [
    | inl e ↦ (b, rw (refill_exact, e), IsRefill-same b now2 v)
    | inr e ↦ elim (Bool-cases (seconds b.last_refill now2 == 0)) [
      | inl e2 ↦ (b, rw (refill_exact, e, e2), IsRefill-same b now2 v)
      | inr e2 ↦ (
        later b (seconds b.last_refill now2) now2,
        rw (refill_exact, e, e2),
        IsRefill-later b now2 v h e2,
      )
    ]
  ]

-- What `consume` gives where nothing overflows.
abbrev pub consumed : ℤ → TokenBucket → TokenBucket × Bool
consumed n b = if leb_ℤ n b.tokens then (record b { tokens = b.tokens -ℤ n }, true) else (b, false)

-- The tokens that a call took.
abbrev pub spent : Bool → ℤ → ℕ
spent true n = pos_part n
spent false n = 0

module _ (n : ℤ) (b : TokenBucket) (v : IsValid b) (h : pos 0 ≤ℤ n) where
  left_parts :
      leb_ℤ n b.tokens ≡ true
      → (pos_part (b.tokens -ℤ n) + pos_part n ≡ pos_part b.tokens) × (neg_part (b.tokens -ℤ n) ≡ 0)
  left_parts e =
      let zero_n = neg_part-eq-zero n h in
      let zero_t = neg_part-eq-zero b.tokens v.not_negative in
      -ℤ_nonneg b.tokens n zero_t zero_n (ground arith)

  pub consume_exact : consume n b ≡ some (consumed n b)
  unfolding consume take_tokens
  consume_exact = elim (Bool-cases (leb_ℤ n b.tokens)) [
    | inl e ↦ rw e (
        rw (
          int64-some (b.tokens -ℤ n) (omega (arith, left_parts e)) (
            omega (
              arith,
              left_parts e,
              neg_part-eq-zero b.tokens v.not_negative,
              neg_part-eq-zero b.capacity (omega arith),
            ))))
    | inr e ↦ rw e
  ]

  pub consumed-IsValid : IsValid (consumed n b).0
  consumed-IsValid = elim (Bool-cases (leb_ℤ n b.tokens)) [
    | inl e ↦ rw e (omega (arith, left_parts e, neg_part-eq-zero b.tokens v.not_negative))
    | inr e ↦ rw e v
  ]

  pub spent-consumed :
      spent (consumed n b).1 n + pos_part (consumed n b).0.tokens ≡ pos_part b.tokens
  spent-consumed = elim (Bool-cases (leb_ℤ n b.tokens)) [
    | inl e ↦ rw e (omega (arith, left_parts e))
    | inr e ↦ rw e (omega arith)
  ]

  pub consumed_same :
      ((consumed n b).0.capacity ≡ b.capacity)
      × ((consumed n b).0.refill_rate ≡ b.refill_rate)
      × ((consumed n b).0.last_refill ≡ b.last_refill)
  consumed_same = ground arith

-- A change of the limits, to numbers that are not negative and a capacity below 2 ^ 63, keeps a
-- bucket valid.
pub update_config-IsValid :
    (capacity rate : ℤ) (b : TokenBucket)
    → IsValid b
    → pos 0 ≤ℤ capacity
    → pos_part capacity < 2 ^ 63
    → pos 0 ≤ℤ rate
    → IsValid (update_config capacity rate b)
unfolding update_config
update_config-IsValid capacity rate b v h k r = ground arith

pub new_bucket-IsValid :
    (capacity rate : ℤ) (now : ℕ)
    → pos 0 ≤ℤ capacity
    → pos_part capacity < 2 ^ 63
    → pos 0 ≤ℤ rate
    → IsValid (new_bucket capacity rate now)
unfolding new_bucket
new_bucket-IsValid capacity rate now h k r = omega arith

-- What a call of `try_acquire` did to a valid bucket.
pub record IsAcquire (n : ℤ) (b b' : TokenBucket) (now2 : ℕ) (granted : Bool) : Type 0 where
  pub valid : IsValid b'
  pub same_capacity : b'.capacity ≡ b.capacity
  pub same_rate : b'.refill_rate ≡ b.refill_rate
  pub later : b.last_refill ≤ b'.last_refill
  pub at_now : (b'.last_refill ≡ b.last_refill) ⊎ (b'.last_refill ≡ now2)
  pub budget :
      spent granted n + pos_part b'.tokens
      ≤ pos_part b.tokens + seconds b.last_refill b'.last_refill * pos_part b.refill_rate

-- On a valid bucket, where the tokens of the time that passed fit in an int64_t and no negative
-- number is asked for, `try_acquire` returns without overflow. It grants the tokens exactly if
-- there are enough after the refill, takes them then and only then, keeps the bucket valid, and
-- hands out no more than the tokens that were there and those of the seconds that it moves
-- `last_refill` on.
pub try_acquire_total :
    (now now2 : ℕ) (n : ℤ) (b : TokenBucket)
    → IsValid b
    → Fits b now2
    → pos 0 ≤ℤ n
    → (b' : TokenBucket) × (refill now now2 b ≡ some b')
      × (try_acquire now now2 n b ≡ some (consumed n b'))
      × IsAcquire n b (consumed n b').0 now2 (consumed n b').1
unfolding try_acquire
try_acquire_total now now2 n b v h k =
    let (b', e, r) = refill_total b now now2 v h in
    let same = consumed_same n b' r.valid k in
    (
      b',
      e,
      rw e (consume_exact n b' r.valid k),
      record {
        valid = consumed-IsValid n b' r.valid k;
        same_capacity = same.0 ∙ r.same_capacity;
        same_rate = same.1 ∙ r.same_rate;
        later = omega (arith, same.2, r.later);
        at_now = rw same.2 r.at_now;
        budget = rw same.2 (omega (arith, spent-consumed n b' r.valid k, r.budget));
      },
    )
