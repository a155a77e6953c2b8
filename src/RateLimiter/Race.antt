-- ===== src/RateLimiter/Race.antt =====
-- The bucket under several threads: `try_acquire` with one token for a call, which calls `refill` first,
-- src/middleware/rate_limiter.cpp, lines 38-119. A step is one reading of the clock, one look at
-- `last_refill_`, one access to the atomic counter, or the taking of the mutex, and any thread may take
-- the next one. The release of the mutex belongs to the step before it, and the writing of
-- `last_refill_` to the store of the counter: what reads `last_refill_` in between, without the mutex,
-- might have read it before the store. Such a reading, a data race, sees the value that is there. The
-- counter, the capacity and the rate are values of an int64_t that are not negative; a sum that does not
-- fit in one is undefined, which `overflow` notes. `update_config` is not among the steps.
pub mod Invariant
pub mod Accesses
pub mod Safety
pub mod Phases
pub mod Lost
use ai_switch.Base.{
  ℕ, suc, ◌+◌, ◌-◌, ◌*◌, ◌^◌, ◌≤◌, ◌<◌, ◌≡◌, refl, Bool, true, false, arith, if◌then◌else◌, ltb,
  ◌==◌,
}
use ai_switch.Base.Threads.{update}
use ai_switch.RateLimiter.{seconds}

pub data Pc : Type 0 where
  -- Between two calls.
  idle : Pc
  -- In `refill`, with the first reading.
  entered : (now : ℕ) → Pc
  -- Before the mutex.
  waiting : Pc
  -- Under the mutex: before the second reading, with the seconds to add and that reading, and with the
  -- value that was loaded.
  inside : Pc
  due : (elapsed now2 : ℕ) → Pc
  holding : (seen elapsed now2 : ℕ) → Pc
  -- Behind `refill`.
  refilled : Pc
  -- In the loop, with the value that it expects.
  loaded : (expected : ℕ) → Pc

pub record Shared : Type 0 where
  pub tokens : ℕ
  pub capacity : ℕ
  pub rate : ℕ
  pub last_refill : ℕ
  pub time : ℕ
  pub locked : Bool
  -- The requests let through, and the stores of `refill`, so far.
  pub granted : ℕ
  pub stores : ℕ
  -- Whether a sum has left the int64_t.
  pub overflown : Bool
  pub pc : ℕ → Pc

abbrev pub min_cap : ℕ → ℕ → ℕ
min_cap cap new = if ltb cap new then cap else new

pub data Step (s : Shared) : Shared → Type 0 where
  tick : (d : ℕ) → Step s (record s { time = s.time + d })
  enter : (i : ℕ) → s.pc i ≡ idle → Step s (record s { pc = update s.pc i (entered s.time) })
  -- `elapsed <= 0` without the mutex.
  pass :
      (i now : ℕ)
      → s.pc i ≡ entered now
      → seconds s.last_refill now ≡ 0
      → Step s (record s { pc = update s.pc i refilled })
  await :
      (i now : ℕ)
      → s.pc i ≡ entered now
      → 0 < seconds s.last_refill now
      → Step s (record s { pc = update s.pc i waiting })
  lock :
      (i : ℕ)
      → s.pc i ≡ waiting
      → s.locked ≡ false
      → Step s (record s { locked = true; pc = update s.pc i inside })
  -- Another thread has refilled the bucket.
  unlock :
      (i : ℕ)
      → s.pc i ≡ inside
      → seconds s.last_refill s.time ≡ 0
      → Step s (record s { locked = false; pc = update s.pc i refilled })
  renew :
      (i : ℕ)
      → s.pc i ≡ inside
      → 0 < seconds s.last_refill s.time
      → Step s (record s { pc = update s.pc i (due (seconds s.last_refill s.time) s.time) })
  load_refill :
      (i elapsed now2 : ℕ)
      → s.pc i ≡ due elapsed now2
      → Step s (record s { pc = update s.pc i (holding s.tokens elapsed now2) })
  store :
      (i seen elapsed now2 : ℕ)
      → s.pc i ≡ holding seen elapsed now2
      → seen + elapsed * s.rate < 2 ^ 63
      → Step s (record s {
        tokens = min_cap s.capacity (seen + elapsed * s.rate);
        last_refill = now2;
        locked = false;
        stores = s.stores + 1;
        pc = update s.pc i refilled;
      })
  overflow :
      (i seen elapsed now2 : ℕ)
      → s.pc i ≡ holding seen elapsed now2
      → 2 ^ 63 ≤ seen + elapsed * s.rate
      → Step s (record s { overflown = true })
  load : (i : ℕ) → s.pc i ≡ refilled → Step s (record s { pc = update s.pc i (loaded s.tokens) })
  exchange :
      (i left : ℕ)
      → s.pc i ≡ loaded s.tokens
      → s.tokens ≡ suc left
      → Step s (record s { tokens = left; granted = s.granted + 1; pc = update s.pc i idle })
  -- The exchange fails, perhaps for no reason: the thread has the value that is there now.
  reload :
      (i expected : ℕ)
      → s.pc i ≡ loaded (suc expected)
      → Step s (record s { pc = update s.pc i (loaded s.tokens) })
  refuse : (i : ℕ) → s.pc i ≡ loaded 0 → Step s (record s { pc = update s.pc i idle })

pub data Reach (s : Shared) : Shared → Type 0 where
  here : Reach s s
  next : {t u : Shared} → Reach s t → Step t u → Reach s u

-- A new bucket, full, with no thread at it.
abbrev pub start : ℕ → ℕ → ℕ → Shared
start capacity rate now = record {
  tokens = capacity;
  capacity = capacity;
  rate = rate;
  last_refill = now;
  time = now;
  locked = false;
  granted = 0;
  stores = 0;
  overflown = false;
  pc = λ _. idle;
}
