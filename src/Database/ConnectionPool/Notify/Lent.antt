-- ===== src/Database/ConnectionPool/Notify/Lent.antt =====
-- What the pool with its notifications does, a pool whose waiting threads look at any time does too.
use ai_switch.Base.{ℕ, ◌≡◌, sym, ap, subst, List, arith}
use ai_switch.Base.Threads.{update, map-update, map-update_unseen}
use ai_switch.Database.ConnectionPool.{ConnectionPool, return_connection}
use ai_switch.Database.ConnectionPool.Threads.{
  Borrower, outside, waiting, holding, Threads, take_at_once, wait, take_later, time_out, give_back,
  Reach, here, next, begin,
}
use ai_switch.Database.ConnectionPool.Notify.{
  Phase, absent, asleep, awake, lent, notifying, Lending, LendStep, borrows, falls_asleep, wakes_up,
  finds_one, sleeps_on, gives_up, gives_back, notifies_one, notifies_no_one, LendReach, at_first,
  and_then, opened,
}

-- A thread as `borrow` and `return_connection` leave it, the notifications forgotten.
abbrev pub seen_phase : Phase → Borrower
seen_phase absent = outside
seen_phase asleep = waiting
seen_phase awake = waiting
seen_phase (lent conn) = holding conn
seen_phase notifying = outside

abbrev pub seen : Lending → Threads
seen s = record { pool = s.pool; pc = λ i. seen_phase (s.phase i) }

module _ (n : ℕ) (w : Threads) where
  moved :
      (pool : ConnectionPool) {f g : ℕ → Borrower}
      → f ≡ g
      → Reach n w (record { pool = pool; pc = f })
      → Reach n w (record { pool = pool; pc = g })
  moved pool e r = subst (λ h. Reach n w (record { pool = pool; pc = h })) e r

  LendStep-Reach : {s t : Lending} → LendStep n s t → Reach n w (seen s) → Reach n w (seen t)
  LendStep-Reach {s} (borrows i conn pool below e taken) r =
      moved pool (map-update seen_phase s.phase i (lent conn))
        (next r (take_at_once i conn pool below (ap seen_phase e) taken))
  LendStep-Reach {s} (falls_asleep i below e empty) r =
      moved s.pool (map-update seen_phase s.phase i asleep)
        (next r (wait i below (ap seen_phase e) empty))
  LendStep-Reach {s} (wakes_up i below e) r =
      moved s.pool (map-update_unseen seen_phase s.phase i awake (sym (ap seen_phase e))) r
  LendStep-Reach {s} (finds_one i conn pool below e taken) r =
      moved pool (map-update seen_phase s.phase i (lent conn))
        (next r (take_later i conn pool below (ap seen_phase e) taken))
  LendStep-Reach {s} (sleeps_on i below e empty) r =
      moved s.pool (map-update_unseen seen_phase s.phase i asleep (sym (ap seen_phase e))) r
  LendStep-Reach {s} (gives_up i below e empty) r =
      moved s.pool (map-update seen_phase s.phase i absent)
        (next r (time_out i below (ap seen_phase e) empty))
  LendStep-Reach {s} (gives_back i conn below e) r =
      moved (return_connection conn s.pool) (map-update seen_phase s.phase i notifying)
        (next r (give_back i conn below (ap seen_phase e)))
  LendStep-Reach {s} (notifies_one i j below below' e sleeping) r =
      let apart : update s.phase i absent j ≡ asleep = ground arith in
      moved s.pool
        (map-update_unseen seen_phase (update s.phase i absent) j awake (sym (ap seen_phase apart)))
        (moved s.pool (map-update_unseen seen_phase s.phase i absent (sym (ap seen_phase e))) r)
  LendStep-Reach {s} (notifies_no_one i below e no_one) r =
      moved s.pool (map-update_unseen seen_phase s.phase i absent (sym (ap seen_phase e))) r

-- The pool with its notifications refines the one without: whatever threads do, in any interleaving,
-- is, with a thread that sleeps or is awake seen as one that waits and one that is about to notify as
-- one that is outside, an interleaving of threads that look at the queue at any time.
pub LendReach-Reach :
    (n : ℕ) (conns : List ℕ) {s : Lending}
    → LendReach n (opened conns) s
    → Reach n (begin conns) (seen s)
LendReach-Reach n conns at_first = here
LendReach-Reach n conns (and_then r st) =
    LendStep-Reach n (begin conns) st (LendReach-Reach n conns r)
