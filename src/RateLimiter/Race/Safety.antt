-- ===== src/RateLimiter/Race/Safety.antt =====
-- What holds in every interleaving.
use ai_switch.Base.{ℕ, ◌+◌, ◌*◌, ◌^◌, ◌≤◌, ◌<◌, ◌≡◌, refl, false, arith, ◌∙◌}
use ai_switch.RateLimiter.{seconds}
use ai_switch.RateLimiter.Budget.{mul_mono}
use ai_switch.RateLimiter.Race.{
  idle, entered, waiting, inside, due, holding, refilled, loaded, Shared, Step, tick, enter, pass,
  await, lock, unlock, renew, load_refill, store, overflow, load, exchange, reload, refuse, Reach,
  here, next, start,
}
use ai_switch.RateLimiter.Race.Invariant.{Holds, Inv, Holds-same}
use ai_switch.RateLimiter.Race.Accesses.{
  outside-Inv, lock-Inv, stays-Inv, unlock-Inv, store-Inv, sum_fits,
}

Step-time : {s t : Shared} → Step s t → s.time ≤ t.time
Step-time (tick d) = omega arith
Step-time (enter i e) = omega arith
Step-time (pass i now e h) = omega arith
Step-time (await i now e h) = omega arith
Step-time (lock i e free) = omega arith
Step-time (unlock i e h) = omega arith
Step-time (renew i e h) = omega arith
Step-time (load_refill i elapsed now2 e) = omega arith
Step-time (store i seen elapsed now2 e fits) = omega arith
Step-time (overflow i seen elapsed now2 e over) = omega arith
Step-time (load i e) = omega arith
Step-time (exchange i left e f) = omega arith
Step-time (reload i x e) = omega arith
Step-time (refuse i e) = omega arith

Step-same : {s t : Shared} → Step s t → (t.capacity ≡ s.capacity) × (t.rate ≡ s.rate)
Step-same (tick d) = (refl, refl)
Step-same (enter i e) = (refl, refl)
Step-same (pass i now e h) = (refl, refl)
Step-same (await i now e h) = (refl, refl)
Step-same (lock i e free) = (refl, refl)
Step-same (unlock i e h) = (refl, refl)
Step-same (renew i e h) = (refl, refl)
Step-same (load_refill i elapsed now2 e) = (refl, refl)
Step-same (store i seen elapsed now2 e fits) = (refl, refl)
Step-same (overflow i seen elapsed now2 e over) = (refl, refl)
Step-same (load i e) = (refl, refl)
Step-same (exchange i left e f) = (refl, refl)
Step-same (reload i x e) = (refl, refl)
Step-same (refuse i e) = (refl, refl)

Step-Inv :
    (begin until : ℕ) {s t : Shared}
    → Step s t
    → s.time ≤ until
    → s.capacity + seconds begin until * s.rate < 2 ^ 63
    → Inv begin s
    → Inv begin t
Step-Inv begin until {s} (tick d) early fits v =
    let t : Shared = record s { time = s.time + d } in
    record {
      within = v.within;
      bound = v.bound;
      begun = v.begun;
      paced = v.paced;
      sound = v.sound;
      holds = λ j. Holds-same s t (s.pc j) refl refl (omega arith) refl (v.holds j);
      unique = v.unique;
    }
Step-Inv begin until {s} (enter i e) early fits v =
    outside-Inv begin s v i s.tokens s.granted (entered s.time) refl (omega arith) (omega arith)
Step-Inv begin until {s} (pass i now e h) early fits v =
    outside-Inv begin s v i s.tokens s.granted refilled refl (omega arith) (omega arith)
Step-Inv begin until {s} (await i now e h) early fits v =
    outside-Inv begin s v i s.tokens s.granted waiting refl (omega arith) (omega arith)
Step-Inv begin until {s} (lock i e free) early fits v = lock-Inv begin s v i free
Step-Inv begin until {s} (unlock i e h) early fits v = unlock-Inv begin s v i (rw e refl)
Step-Inv begin until {s} (renew i e h) early fits v =
    let locked : Holds s inside = rw e at (v.holds i) in
    stays-Inv begin s v i (due (seconds s.last_refill s.time) s.time) (rw e refl)
      (locked, refl, h, omega arith)
Step-Inv begin until {s} (load_refill i elapsed now2 e) early fits v =
    let (locked, gap, past, read) : Holds s (due elapsed now2) = rw e at (v.holds i) in
    stays-Inv begin s v i (holding s.tokens elapsed now2) (rw e refl)
      (locked, gap, past, read, v.within)
Step-Inv begin until {s} (store i seen elapsed now2 e f) early fits v =
    store-Inv begin s v i seen elapsed now2 e
Step-Inv begin until {s} (overflow i seen elapsed now2 e over) early fits v =
    absurd (omega (arith, sum_fits begin s v i seen elapsed now2 until early fits e))
Step-Inv begin until {s} (load i e) early fits v =
    outside-Inv begin s v i s.tokens s.granted (loaded s.tokens) refl (omega arith) (omega arith)
Step-Inv begin until {s} (exchange i left e f) early fits v =
    outside-Inv begin s v i left (s.granted + 1) idle refl (omega arith) (omega arith)
Step-Inv begin until {s} (reload i x e) early fits v =
    outside-Inv begin s v i s.tokens s.granted (loaded s.tokens) refl (omega arith) (omega arith)
Step-Inv begin until {s} (refuse i e) early fits v =
    outside-Inv begin s v i s.tokens s.granted idle refl (omega arith) (omega arith)

start-Inv : (capacity rate now : ℕ) → Inv now (start capacity rate now)
start-Inv capacity rate now = record {
  within = omega arith;
  bound = omega arith;
  begun = omega arith;
  paced = omega arith;
  sound = refl;
  holds = λ i. tt;
  unique = λ i j a b. cc;
}

module _ (capacity rate now until : ℕ) where
  Reach-same :
      {s : Shared} → Reach (start capacity rate now) s → (s.capacity ≡ capacity) × (s.rate ≡ rate)
  Reach-same here = (refl, refl)
  Reach-same (next r st) = let (a, b) = Step-same st in let (c, d) = Reach-same r in (a ∙ c, b ∙ d)

  Reach-Inv :
      {s : Shared}
      → Reach (start capacity rate now) s
      → s.time ≤ until
      → capacity + seconds now until * rate < 2 ^ 63
      → Inv now s
  Reach-Inv here early fits = start-Inv capacity rate now
  Reach-Inv (next {t} r st) early fits =
      let before : t.time ≤ until = omega (arith, Step-time st) in
      let (a, b) = Reach-same r in
      Step-Inv now until st before (rw (a, b) fits) (Reach-Inv r before fits)

  -- From a new bucket, in every interleaving of any number of threads and up to any time for which
  -- the capacity and the tokens of the whole seconds until then together fit in an int64_t, no sum
  -- overflows, the counter stays within the capacity, and the requests let through and the tokens
  -- left are together at most one capacity for the start and one for each whole second from it to
  -- the last refill.
  pub Reach-granted :
      {s : Shared}
      → Reach (start capacity rate now) s
      → s.time ≤ until
      → capacity + seconds now until * rate < 2 ^ 63
      → (s.overflown ≡ false)
        × (s.tokens ≤ capacity)
        × (s.granted + s.tokens ≤ (seconds now s.last_refill + 1) * capacity)
  Reach-granted {s} r early fits =
      let v = Reach-Inv r early fits in
      let same : s.capacity ≡ capacity = (Reach-same r).0 in
      let grown =
        mul_mono (s.stores + 1) (seconds now s.last_refill + 1) s.capacity
          (omega (arith, v.paced)) in
      rw (← same) (v.sound, omega (arith, v.within), omega (arith, v.bound))
