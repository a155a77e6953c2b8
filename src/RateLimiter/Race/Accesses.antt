-- ===== src/RateLimiter/Race/Accesses.antt =====
-- Each kind of step of `try_acquire`, and what holds behind it.
use ai_switch.Base.{
  ℕ, ◌+◌, ◌*◌, ◌^◌, ◌≤◌, ◌<◌, ◌≡◌, refl, true, false, arith, ◌==◌, Bool-cases, inl, inr,
}
use ai_switch.RateLimiter.{seconds}
use ai_switch.RateLimiter.Budget.{seconds_split, mul_mono}
use ai_switch.Base.Threads.{update}
use ai_switch.RateLimiter.Race.{Pc, inside, holding, refilled, Shared, min_cap}
use ai_switch.RateLimiter.Race.Invariant.{
  Holds, is_inside, Inv, Holds-same, Holds-outside, Holds-free, Holds-update, IsUnique-outside,
  IsUnique-stays, IsUnique-first, seconds_ordered, seconds_mono,
}

module _ (begin : ℕ) (s : Shared) (v : Inv begin s) where
  -- A step of a thread without the mutex, which may change the counter.
  pub outside-Inv :
      (i tokens granted : ℕ) (p : Pc)
      → is_inside p ≡ false
      → tokens ≤ s.tokens
      → granted + tokens ≤ s.granted + s.tokens
      → Inv begin (record s { tokens = tokens; granted = granted; pc = update s.pc i p })
  outside-Inv i tokens granted p out less kept =
      let t : Shared = record s { tokens = tokens; granted = granted; pc = update s.pc i p } in
      record {
        within = omega (arith, v.within);
        bound = omega (arith, v.bound);
        begun = v.begun;
        paced = v.paced;
        sound = v.sound;
        holds =
            Holds-update t s.pc i p
              (λ j e. Holds-same s t (s.pc j) refl refl (omega arith) refl (v.holds j))
              (Holds-outside t p out);
        unique = IsUnique-outside s.pc i p v.unique out;
      }

  pub lock-Inv :
      (i : ℕ) → s.locked ≡ false → Inv begin (record s { locked = true; pc = update s.pc i inside })
  lock-Inv i free =
      let quiet : (j : ℕ) → is_inside (s.pc j) ≡ false =
        λ j. Holds-free s (s.pc j) free (v.holds j) in
      let t : Shared = record s { locked = true; pc = update s.pc i inside } in
      record {
        within = v.within;
        bound = v.bound;
        begun = v.begun;
        paced = v.paced;
        sound = v.sound;
        holds = Holds-update t s.pc i inside (λ j e. Holds-outside t (s.pc j) (quiet j)) refl;
        unique = IsUnique-first s.pc i inside quiet;
      }

  -- A step under the mutex.
  pub stays-Inv :
      (i : ℕ) (p : Pc)
      → is_inside (s.pc i) ≡ true
      → Holds (record s { pc = update s.pc i p }) p
      → Inv begin (record s { pc = update s.pc i p })
  stays-Inv i p in_mutex h =
      let t : Shared = record s { pc = update s.pc i p } in
      record {
        within = v.within;
        bound = v.bound;
        begun = v.begun;
        paced = v.paced;
        sound = v.sound;
        holds =
            Holds-update t s.pc i p
              (λ j e. Holds-same s t (s.pc j) refl refl (omega arith) refl (v.holds j)) h;
        unique = IsUnique-stays s.pc i p v.unique in_mutex;
      }

  others_quiet :
      (i j : ℕ) → is_inside (s.pc i) ≡ true → (i == j) ≡ false → is_inside (s.pc j) ≡ false
  others_quiet i j h e = elim (Bool-cases (is_inside (s.pc j))) [
    | inl k ↦ ground (arith, v.unique i j h k)
    | inr k ↦ k
  ]

  pub unlock-Inv :
      (i : ℕ)
      → is_inside (s.pc i) ≡ true
      → Inv begin (record s { locked = false; pc = update s.pc i refilled })
  unlock-Inv i h =
      let t : Shared = record s { locked = false; pc = update s.pc i refilled } in
      record {
        within = v.within;
        bound = v.bound;
        begun = v.begun;
        paced = v.paced;
        sound = v.sound;
        holds =
            Holds-update t s.pc i refilled (λ j e. Holds-outside t (s.pc j) (others_quiet i j h e))
              tt;
        unique = IsUnique-outside s.pc i refilled v.unique refl;
      }

  pub store-Inv :
      (i seen elapsed now2 : ℕ)
      → s.pc i ≡ holding seen elapsed now2
      → Inv begin (record s {
        tokens = min_cap s.capacity (seen + elapsed * s.rate);
        last_refill = now2;
        locked = false;
        stores = s.stores + 1;
        pc = update s.pc i refilled;
      })
  store-Inv i seen elapsed now2 e =
      let (_, gap, past, _, _) : Holds s (holding seen elapsed now2) = rw e at (v.holds i) in
      let ordered = seconds_ordered s.last_refill now2 (omega arith) in
      let split = seconds_split begin s.last_refill now2 v.begun ordered in
      let t : Shared = record s {
        tokens = min_cap s.capacity (seen + elapsed * s.rate);
        last_refill = now2;
        locked = false;
        stores = s.stores + 1;
        pc = update s.pc i refilled;
      } in
      record {
        within = ground arith;
        bound = ground (arith, v.bound);
        begun = omega (arith, v.begun);
        paced = omega (arith, v.paced);
        sound = v.sound;
        holds =
            Holds-update t s.pc i refilled
              (λ j k. Holds-outside t (s.pc j) (others_quiet i j (rw e) k)) tt;
        unique = IsUnique-outside s.pc i refilled v.unique refl;
      }

  -- The sum of the refill fits, where the tokens of the whole time do.
  pub sum_fits :
      (i seen elapsed now2 until : ℕ)
      → s.time ≤ until
      → s.capacity + seconds begin until * s.rate < 2 ^ 63
      → s.pc i ≡ holding seen elapsed now2
      → seen + elapsed * s.rate < 2 ^ 63
  sum_fits i seen elapsed now2 until early fits e =
      let (_, gap, past, read, within) : Holds s (holding seen elapsed now2) =
        rw e at (v.holds i) in
      let shorter = seconds_mono begin s.last_refill now2 until v.begun (omega arith) in
      let fewer = mul_mono elapsed (seconds begin until) s.rate (omega arith) in omega arith
