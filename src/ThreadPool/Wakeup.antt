-- ===== src/ThreadPool/Wakeup.antt =====
-- The wake-up of the destructor that a worker may miss.
use ai_switch.Base.{ℕ, ◌≡◌, refl, true, false, [], arith}
use ai_switch.Base.Threads.{update}
use ai_switch.ThreadPool.{
  ready, falling_asleep, asleep, Pool, woken, find_nothing, sleep, set_stop, notify_all, Reach,
  here, next,
}

-- From any state in which no task waits, no one holds the mutex and a worker is ready, the destructor
-- can set `stop_` and notify all between that worker's test and its sleep: then the worker sleeps
-- though the pool has stopped and has notified all.
pub missed_wakeup :
    (s : Pool) (i : ℕ)
    → s.pc i ≡ ready
    → s.locked ≡ false
    → s.stop ≡ false
    → s.tasks ≡ []
    → (t : Pool) × Reach s t × (t.pc i ≡ asleep) × (t.stop ≡ true) × (t.notified ≡ true)
missed_wakeup s i e free going empty =
    let s1 : Pool = record s { locked = true; pc = update s.pc i falling_asleep } in
    let s2 : Pool = record s1 { stop = true } in
    let s3 : Pool = record s2 { notified = true; pc = λ j. woken (s2.pc j) } in
    (
      record s3 { locked = false; pc = update s3.pc i asleep },
      next (next (next (next here (find_nothing i e free going empty)) set_stop) (notify_all refl))
          (sleep i (ground arith)),
      ground arith,
      refl,
      refl,
    )
