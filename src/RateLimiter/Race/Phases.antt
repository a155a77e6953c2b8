-- ===== src/RateLimiter/Race/Phases.antt =====
-- Parts of a run: threads that pass `refill`, one that is in the middle of it, and threads that take a
-- token each.
use ai_switch.Base.{
  ℕ, zero, suc, ◌+◌, ◌-◌, ◌^◌, ◌≤◌, ◌<◌, ◌≡◌, refl, true, false, arith, ◌∙◌, ◌==◌, Bool-cases, inl,
  inr,
}
use ai_switch.RateLimiter.{seconds}
use ai_switch.Base.Threads.{update, update_self}
use ai_switch.RateLimiter.Race.{
  Pc, idle, entered, waiting, inside, due, holding, refilled, loaded, Shared, tick, enter, pass,
  await, lock, renew, load_refill, load, exchange, Reach, here, next, start,
}

pub Reach-trans : {s t u : Shared} → Reach s t → Reach t u → Reach s u
Reach-trans r here = r
Reach-trans r (next q st) = next (Reach-trans r q) st

-- The threads 0 to k - 1 are behind `refill`, those from k on have not called.
pub record IsPassed (capacity rate now k : ℕ) (s : Shared) : Type 0 where
  pub reach : Reach (start capacity rate now) s
  pub full : s.tokens ≡ capacity
  pub same_capacity : s.capacity ≡ capacity
  pub same_rate : s.rate ≡ rate
  pub filled : s.last_refill ≡ now
  pub same_time : s.time ≡ now
  pub free : s.locked ≡ false
  pub none_granted : s.granted ≡ 0
  pub none_stored : s.stores ≡ 0
  pub sound : s.overflown ≡ false
  pub behind : (j : ℕ) → j < k → s.pc j ≡ refilled
  pub ahead : (j : ℕ) → k ≤ j → s.pc j ≡ idle

seconds_self : (a : ℕ) → seconds a a ≡ 0
unfolding seconds
seconds_self a = omega arith

abbrev passing : ℕ → Shared → Shared
passing k s = record s { pc = update (update s.pc k (entered s.time)) k refilled }

pass_one : (k : ℕ) (s : Shared) → s.pc k ≡ idle → s.last_refill ≡ s.time → Reach s (passing k s)
pass_one k s e same =
    next (next here (enter k e))
      (pass k s.time (update_self s.pc k (entered s.time)) (rw same (seconds_self s.time)))

pub pass_many : (capacity rate now k : ℕ) → (s : Shared) × IsPassed capacity rate now k s
pass_many capacity rate now zero = (
  start capacity rate now,
  record {
    reach = here;
    full = refl;
    same_capacity = refl;
    same_rate = refl;
    filled = refl;
    same_time = refl;
    free = refl;
    none_granted = refl;
    none_stored = refl;
    sound = refl;
    behind = λ j h. absurd (omega arith);
    ahead = λ j h. refl;
  },
)
pass_many capacity rate now (suc k) =
    let (s, p) = pass_many capacity rate now k in
    (
      passing k s,
      record {
        reach =
            Reach-trans p.reach
              (pass_one k s (p.ahead k (omega arith)) (omega (arith, p.filled, p.same_time)));
        full = p.full;
        same_capacity = p.same_capacity;
        same_rate = p.same_rate;
        filled = p.filled;
        same_time = p.same_time;
        free = p.free;
        none_granted = p.none_granted;
        none_stored = p.none_stored;
        sound = p.sound;
        behind = λ j h. elim (Bool-cases (k == j)) [
          | inl same ↦ ground arith
          | inr other ↦ ground (arith, p.behind j)
        ];
        ahead = λ j h. ground (arith, p.ahead j);
      },
    )

-- Thread `i` a second later: before it loads the counter for the refill, and behind that.
abbrev pub preparing : ℕ → Shared → ℕ → Pc
preparing i s =
    let later = s.time + 10 ^ 9 in
    update (update (update (update s.pc i (entered later)) i waiting) i inside) i
      (due (seconds s.last_refill later) later)

abbrev pub refilling : ℕ → Shared → Shared
refilling i s =
    let later = s.time + 10 ^ 9 in
    record s {
      time = later;
      locked = true;
      pc = update (preparing i s) i (holding s.tokens (seconds s.last_refill later) later);
    }

pub refill_one :
    (i : ℕ) (s : Shared)
    → s.pc i ≡ idle
    → s.locked ≡ false
    → 0 < seconds s.last_refill (s.time + 10 ^ 9)
    → Reach s (refilling i s)
refill_one i s e free past =
    let later = s.time + 10 ^ 9 in
    let elapsed = seconds s.last_refill later in
    let f1 = update s.pc i (entered later) in
    let f2 = update f1 i waiting in
    let f3 = update f2 i inside in
    next
      (next
        (next
          (next (next (next here (tick (10 ^ 9))) (enter i e))
            (await i later (update_self s.pc i (entered later)) past))
          (lock i (update_self f1 i waiting) free))
        (renew i (update_self f2 i inside) past))
      (load_refill i elapsed later (update_self f3 i (due elapsed later)))

-- The threads 0 to m - 1 have taken a token each.
pub record IsTaking (m : ℕ) (s t : Shared) : Type 0 where
  pub reach : Reach s t
  pub taken : t.tokens + m ≡ s.tokens
  pub granted : t.granted ≡ s.granted + m
  pub same_capacity : t.capacity ≡ s.capacity
  pub same_rate : t.rate ≡ s.rate
  pub same_time : t.time ≡ s.time
  pub same_stores : t.stores ≡ s.stores
  pub same_sound : t.overflown ≡ s.overflown
  pub ahead : (j : ℕ) → m ≤ j → t.pc j ≡ s.pc j

abbrev taken_one : ℕ → ℕ → Shared → Shared
taken_one j left s = record s {
  tokens = left;
  granted = s.granted + 1;
  pc = update (update s.pc j (loaded s.tokens)) j idle;
}

take_one :
    (j left : ℕ) (s : Shared)
    → s.pc j ≡ refilled
    → s.tokens ≡ suc left
    → Reach s (taken_one j left s)
take_one j left s e h =
    next (next here (load j e)) (exchange j left (update_self s.pc j (loaded s.tokens)) h)

pub take_many :
    (m : ℕ) (s : Shared)
    → m ≤ s.tokens
    → ((j : ℕ) → j < m → s.pc j ≡ refilled)
    → (t : Shared) × IsTaking m s t
take_many zero s enough e = (
  s,
  record {
    reach = here;
    taken = omega arith;
    granted = omega arith;
    same_capacity = refl;
    same_rate = refl;
    same_time = refl;
    same_stores = refl;
    same_sound = refl;
    ahead = λ j h. refl;
  },
)
take_many (suc m) s enough e =
    let (t, p) = take_many m s (omega arith) (λ j h. e j (omega arith)) in
    let left = t.tokens - 1 in
    (
      taken_one m left t,
      record {
        reach = Reach-trans p.reach (
            take_one m left t (p.ahead m (omega arith) ∙ e m (omega arith))
              (omega (arith, p.taken)));
        taken = omega (arith, p.taken);
        granted = omega (arith, p.granted);
        same_capacity = p.same_capacity;
        same_rate = p.same_rate;
        same_time = p.same_time;
        same_stores = p.same_stores;
        same_sound = p.same_sound;
        ahead = λ j h. ground (arith, p.ahead j);
      },
    )
