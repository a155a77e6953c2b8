-- ===== src/RateLimiter/Race/Lost.antt =====
-- What the store of `refill` does to the exchanges of the threads that have looked at `last_refill_` before
-- the refill was due and exchange after its load.
use ai_switch.Base.{ℕ, ◌+◌, ◌*◌, ◌^◌, ◌≤◌, ◌<◌, ◌≡◌, false, arith, ◌∙◌, ap}
use ai_switch.RateLimiter.{seconds}
use ai_switch.Base.Threads.{update, update_self}
use ai_switch.RateLimiter.Race.{holding, refilled, Shared, min_cap, store, Reach, next, start}
use ai_switch.RateLimiter.Race.Phases.{
  Reach-trans, pass_many, preparing, refilling, refill_one, take_many,
}

-- With more threads than the rate and at most as many as the capacity, where the two together fit in an
-- int64_t, there is a run from a new bucket without an overflow in which each of these threads gets a
-- token and the bucket is full at the end: more than the capacity and the rate of each whole second
-- together.
pub lost_updates :
    (capacity rate now k : ℕ)
    → rate < k
    → k ≤ capacity
    → capacity + rate < 2 ^ 63
    → (t : Shared) × Reach (start capacity rate now) t
      × (t.tokens ≡ capacity)
      × (t.granted ≡ k)
      × (t.stores ≡ 1)
      × (t.overflown ≡ false)
      × (capacity + seconds now t.time * rate < t.granted + t.tokens)
unfolding seconds
lost_updates capacity rate now k more enough fits =
    let (s, p) = pass_many capacity rate now k in
    let later = s.time + 10 ^ 9 in
    let elapsed = seconds s.last_refill later in
    let one : elapsed ≡ 1 = omega (arith, p.filled, p.same_time) in
    let u = refilling k s in
    let (t, q) = take_many k u (omega (arith, p.full)) (λ j h. ground (arith, p.behind j)) in
    let at_store : t.pc k ≡ holding s.tokens elapsed later =
      q.ahead k (omega arith) ∙ update_self (preparing k s) k (holding s.tokens elapsed later) in
    let gained : elapsed * t.rate ≡ rate =
      ap (λ x. x * t.rate) one ∙ omega (arith, q.same_rate, p.same_rate) in
    let sum : s.tokens + elapsed * t.rate ≡ capacity + rate = omega (arith, gained, p.full) in
    (
      record t {
        tokens = min_cap t.capacity (s.tokens + elapsed * t.rate);
        last_refill = later;
        locked = false;
        stores = t.stores + 1;
        pc = update t.pc k refilled;
      },
      next
          (Reach-trans p.reach
            (Reach-trans (refill_one k s (p.ahead k (omega arith)) p.free (omega arith)) q.reach))
          (store k s.tokens elapsed later at_store (omega (arith, sum))),
      ground (arith, q.same_capacity, p.same_capacity),
      omega (arith, q.granted, p.none_granted),
      omega (arith, q.same_stores, p.none_stored),
      q.same_sound ∙ p.sound,
      ground (
        arith, q.same_capacity, p.same_capacity, q.granted, p.none_granted, q.same_time,
        p.same_time,
      ),
    )
