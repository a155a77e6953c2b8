-- ===== src/ThreadPool/Signals.antt =====
-- The notifications of `thread_pool::submit`, src/util/thread_pool.h, lines 54-77: the task is queued under
-- the mutex, and `notify_one` is called after it is released. There are `n` workers.
pub mod Awake
pub mod Work
pub mod Drain
pub mod Ends
pub mod Shutdown
use ai_switch.Base.{ℕ, ◌+◌, ◌-◌, ◌<◌, ◌≡◌, ◌≢◌, false, List, [], ◌∷◌, ◌++◌}
use ai_switch.Base.Threads.{update}
use ai_switch.ThreadPool.{
  ready, asleep, Pool, Step, submit, find_nothing, sleep, wake, take, finish, leave, set_stop,
  notify_all, new_pool,
}

pub record Signals : Type 0 where
  pub pool : Pool
  -- The calls of `notify_one` still to come.
  pub pending : ℕ

-- The steps of the pool that a worker below `n` takes, or the destructor. A worker may wake up by itself.
unfoldable pub Moves : ℕ → {s t : Pool} → Step s t → Type 0
Moves n (submit task free going) = ⊥
Moves n (find_nothing i e free going empty) = i < n
Moves n (sleep i e) = i < n
Moves n (wake i e) = i < n
Moves n (take i task rest e free some_task) = i < n
Moves n (finish i task e) = i < n
Moves n (leave i e free stopped empty) = i < n
Moves n set_stop = Unit {0}
Moves n (notify_all stopped) = Unit {0}

-- The state behind a submission.
abbrev pub queued : ℕ → Pool → Pool
queued task s = record s { tasks = s.tasks ++ task ∷ []; submitted = s.submitted ++ task ∷ [] }

pub data SignalStep (n : ℕ) (s : Signals) : Signals → Type 0 where
  submits :
      (task : ℕ)
      → s.pool.locked ≡ false
      → s.pool.stop ≡ false
      → SignalStep n s (record { pool = queued task s.pool; pending = s.pending + 1 })
  moves :
      {t : Pool} (st : Step s.pool t)
      → Moves n st
      → SignalStep n s (record { pool = t; pending = s.pending })
  notifies :
      (i : ℕ)
      → 0 < s.pending
      → i < n
      → s.pool.pc i ≡ asleep
      → SignalStep n s (record {
        pool = record s.pool { pc = update s.pool.pc i ready };
        pending = s.pending - 1;
      })
  -- There is no one to wake up.
  notifies_none :
      0 < s.pending
      → ((i : ℕ) → i < n → s.pool.pc i ≢ asleep)
      → SignalStep n s (record s { pending = s.pending - 1 })

pub data SignalReach (n : ℕ) (s : Signals) : Signals → Type 0 where
  at_start : SignalReach n s s
  and_then_step : {t u : Signals} → SignalReach n s t → SignalStep n t u → SignalReach n s u

abbrev pub new_signals : Signals
new_signals = record { pool = new_pool; pending = 0 }
