-- ===== src/ThreadPool/Signals/Awake.antt =====
-- No task waits in vain.
use ai_switch.Base.{
  ℕ, zero, suc, ◌+◌, ◌<◌, ◌≤◌, ◌≡◌, ◌≢◌, refl, ◌∙◌, false, List, [], ◌∷◌, length, length-append,
  arith, if◌then◌else◌, ◌==◌, Bool-cases, inl, inr,
}
use ai_switch.Base.Threads.{update, total, total-update, total-le, total-same, update_was}
use ai_switch.ThreadPool.{
  Pc, ready, falling_asleep, asleep, running, exited, Pool, woken, Step, submit, find_nothing,
  sleep, wake, take, finish, leave, set_stop, notify_all, Reach, here, next, new_pool,
}
use ai_switch.ThreadPool.Signals.{
  Signals, Moves, SignalStep, submits, moves, notifies, notifies_none, SignalReach, at_start,
  and_then_step, new_signals,
}

-- Whether a worker is about to look at the queue.
abbrev pub looks : Pc → ℕ
looks ready = 1
looks falling_asleep = 0
looks asleep = 0
looks (running task) = 0
looks exited = 0

-- Whether a worker holds the mutex on its way to sleep.
abbrev pub falls : Pc → ℕ
falls ready = 0
falls falling_asleep = 1
falls asleep = 0
falls (running task) = 0
falls exited = 0

pub record IsAwake (n : ℕ) (s : Signals) : Type 0 where
  pub mutex : total falls n s.pool.pc ≡ (if s.pool.locked then 1 else 0)
  pub empty : (i : ℕ) → i < n → s.pool.pc i ≡ falling_asleep → s.pool.tasks ≡ []
  pub bound :
      (i : ℕ)
      → i < n
      → s.pool.pc i ≡ asleep
      → length s.pool.tasks ≤ s.pending + total looks n s.pool.pc

-- The conditions on the others behind a change of one worker.
empty-update :
    (n i : ℕ) (f : ℕ → Pc) (p : Pc) (tasks : List ℕ)
    → (p ≡ falling_asleep → tasks ≡ [])
    → ((j : ℕ) → j < n → f j ≡ falling_asleep → tasks ≡ [])
    → (j : ℕ) → j < n
    → update f i p j ≡ falling_asleep
    → tasks ≡ []
empty-update n i f p tasks own h j below e = elim (Bool-cases (i == j)) [
  | inl same ↦ own (ground arith)
  | inr other ↦ h j below (ground arith)
]

woken-falling : (p : Pc) → woken p ≡ falling_asleep → p ≡ falling_asleep
woken-falling ready e = cc
woken-falling falling_asleep e = refl
woken-falling asleep e = cc
woken-falling (running t) e = cc
woken-falling exited e = cc

woken-asleep : (p : Pc) → woken p ≢ asleep
woken-asleep ready e = cc
woken-asleep falling_asleep e = cc
woken-asleep asleep e = cc
woken-asleep (running t) e = cc
woken-asleep exited e = cc

falls-woken : (p : Pc) → falls (woken p) ≡ falls p
falls-woken ready = refl
falls-woken falling_asleep = refl
falls-woken asleep = refl
falls-woken (running t) = refl
falls-woken exited = refl

Moves-IsAwake :
    (n : ℕ) (s : Signals) {t : Pool} (st : Step s.pool t)
    → Moves n st
    → IsAwake n s
    → IsAwake n (record { pool = t; pending = s.pending })
unfolding Moves
Moves-IsAwake n s (submit task free going) m v = absurd m
Moves-IsAwake n s (find_nothing i e free going nothing) m v = record {
  mutex = ground (arith, v.mutex, total-update falls n s.pool.pc i falling_asleep m);
  empty = empty-update n i s.pool.pc falling_asleep s.pool.tasks (λ h. nothing) v.empty;
  bound = λ j below h. ground arith;
}
Moves-IsAwake n s (sleep i e) m v = record {
  mutex =
      ground
        (arith, v.mutex, total-le falls n s.pool.pc i m, total-update falls n s.pool.pc i asleep m);
  empty = empty-update n i s.pool.pc asleep s.pool.tasks (λ h. cc) v.empty;
  bound = λ j below h. ground (arith, v.empty i m e);
}
Moves-IsAwake n s (wake i e) m v = record {
  mutex = ground (arith, v.mutex, total-update falls n s.pool.pc i ready m);
  empty = empty-update n i s.pool.pc ready s.pool.tasks (λ h. cc) v.empty;
  bound = λ j below h. ground (arith, v.bound i m e, total-update looks n s.pool.pc i ready m);
}
Moves-IsAwake n s (take i task rest e free some_task) m v = record {
  mutex = ground (arith, v.mutex, total-update falls n s.pool.pc i (running task) m);
  empty =
      empty-update n i s.pool.pc (running task) rest (λ h. cc)
        (λ j below h. absurd (ground (arith, v.empty j below h)));
  bound = λ j below h. ground (
    arith,
    v.bound j below (update_was s.pool.pc i j (running task) asleep (λ x. cc) h),
    total-update looks n s.pool.pc i (running task) m,
  );
}
Moves-IsAwake n s (finish i task e) m v = record {
  mutex = ground (arith, v.mutex, total-update falls n s.pool.pc i ready m);
  empty = empty-update n i s.pool.pc ready s.pool.tasks (λ h. cc) v.empty;
  bound = λ j below h. ground (
    arith,
    v.bound j below (update_was s.pool.pc i j ready asleep (λ x. cc) h),
    total-update looks n s.pool.pc i ready m,
  );
}
Moves-IsAwake n s (leave i e free stopped nothing) m v = record {
  mutex = ground (arith, v.mutex, total-update falls n s.pool.pc i exited m);
  empty = empty-update n i s.pool.pc exited s.pool.tasks (λ h. cc) v.empty;
  bound = λ j below h. ground arith;
}
Moves-IsAwake n s set_stop m v = record { mutex = v.mutex; empty = v.empty; bound = v.bound }
Moves-IsAwake n s (notify_all stopped) m v = record {
  mutex =
      total-same falls n s.pool.pc (λ i. woken (s.pool.pc i)) (λ i. falls-woken (s.pool.pc i))
      ∙ v.mutex;
  empty = λ i below h. v.empty i below (woken-falling (s.pool.pc i) h);
  bound = λ i below h. absurd (woken-asleep (s.pool.pc i) h);
}

none_falls :
    (n : ℕ) (s : Signals)
    → IsAwake n s
    → s.pool.locked ≡ false
    → (i : ℕ) → i < n
    → s.pool.pc i ≢ falling_asleep
none_falls n s v free i below e =
    let one : falls (s.pool.pc i) ≡ 1 = ground arith in
    let zero_all : total falls n s.pool.pc ≡ 0 = ground (arith, v.mutex) in
    absurd (omega (arith, total-le falls n s.pool.pc i below))

SignalStep-IsAwake :
    (n : ℕ) (s : Signals) {t : Signals} → SignalStep n s t → IsAwake n s → IsAwake n t
SignalStep-IsAwake n s (submits task free going) v = record {
  mutex = v.mutex;
  empty = λ i below h. absurd (none_falls n s v free i below h);
  bound = λ i below h. omega (arith, v.bound i below h, length-append s.pool.tasks (task ∷ []));
}
SignalStep-IsAwake n s (moves st m) v = Moves-IsAwake n s st m v
SignalStep-IsAwake n s (notifies i some below e) v = record {
  mutex = ground (arith, v.mutex, total-update falls n s.pool.pc i ready below);
  empty = empty-update n i s.pool.pc ready s.pool.tasks (λ h. cc) v.empty;
  bound =
      λ j below' h. ground (arith, v.bound i below e, total-update looks n s.pool.pc i ready below);
}
SignalStep-IsAwake n s (notifies_none some no_one) v = record {
  mutex = v.mutex;
  empty = v.empty;
  bound = λ i below h. absurd (no_one i below h);
}

total-ready : (n : ℕ) → total falls n (λ i. ready) ≡ 0
unfolding total
total-ready zero = refl
total-ready (suc n) = omega (arith, total-ready n)

pub SignalReach-IsAwake : (n : ℕ) {s : Signals} → SignalReach n new_signals s → IsAwake n s
SignalReach-IsAwake n at_start = record {
  mutex = total-ready n;
  empty = λ i below h. cc;
  bound = λ i below h. cc;
}
SignalReach-IsAwake n (and_then_step r st) = SignalStep-IsAwake n _ st (SignalReach-IsAwake n r)

-- What the steps make of the pool is what its own steps may make of it.
step_pool :
    (n : ℕ) (s : Signals) {t : Signals} {w : Pool}
    → Reach w s.pool
    → SignalStep n s t
    → Reach w t.pool
step_pool n s r (submits task free going) = next r (submit task free going)
step_pool n s r (moves st m) = next r st
step_pool n s r (notifies i some below e) = next r (wake i e)
step_pool n s r (notifies_none some no_one) = r

pub SignalReach-Reach : (n : ℕ) {s : Signals} → SignalReach n new_signals s → Reach new_pool s.pool
SignalReach-Reach n at_start = here
SignalReach-Reach n (and_then_step r st) = step_pool n _ (SignalReach-Reach n r) st

-- In every interleaving of `n` workers, of the submissions and of the destructor, while a worker sleeps,
-- no more tasks wait than there are notifications still to come and workers that are about to look
-- at the queue.
pub SignalReach-bound :
    (n i : ℕ) {s : Signals}
    → SignalReach n new_signals s
    → i < n
    → s.pool.pc i ≡ asleep
    → length s.pool.tasks ≤ s.pending + total looks n s.pool.pc
SignalReach-bound n i r below e = (SignalReach-IsAwake n r).bound i below e
