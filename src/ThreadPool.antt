-- ===== src/ThreadPool.antt =====
-- src/util/thread_pool.h and src/util/thread_pool.cpp: any number of workers on one queue. A task is
-- the number of its submission. The mutex is taken and released within one step but for the worker
-- that has found nothing to do: between the test of its predicate and its sleep it holds the mutex, and
-- `stop_` is set without it. A worker may wake up at any time, as a condition variable allows.
pub mod Order
pub mod Wakeup
pub mod Queue
pub mod Signals
mod Tests
use ai_switch.Base.Threads.{update}
use ai_switch.Base.{
  ℕ, ◌+◌, ◌≡◌, Bool, true, false, List, [], ◌∷◌, ◌++◌, length, if◌then◌else◌, ◌==◌,
}

pub data Pc : Type 0 where
  ready : Pc
  falling_asleep : Pc
  asleep : Pc
  running : (task : ℕ) → Pc
  exited : Pc

pub record Pool : Type 0 where
  pub tasks : List ℕ
  pub stop : Bool
  pub locked : Bool
  -- Whether the destructor has called `notify_all`.
  pub notified : Bool
  -- The tasks submitted and those taken, so far.
  pub submitted : List ℕ
  pub taken : List ℕ
  pub pc : ℕ → Pc

unfoldable pub pending : Pool → ℕ
pending s = length s.tasks

-- Where every sleeper wakes up.
abbrev pub woken : Pc → Pc
woken ready = ready
woken falling_asleep = falling_asleep
woken asleep = ready
woken (running t) = running t
woken exited = exited

pub data Step (s : Pool) : Pool → Type 0 where
  submit :
      (task : ℕ)
      → s.locked ≡ false
      → s.stop ≡ false
      → Step s (record s { tasks = s.tasks ++ task ∷ []; submitted = s.submitted ++ task ∷ [] })
  find_nothing :
      (i : ℕ)
      → s.pc i ≡ ready
      → s.locked ≡ false
      → s.stop ≡ false
      → s.tasks ≡ []
      → Step s (record s { locked = true; pc = update s.pc i falling_asleep })
  sleep :
      (i : ℕ)
      → s.pc i ≡ falling_asleep
      → Step s (record s { locked = false; pc = update s.pc i asleep })
  wake : (i : ℕ) → s.pc i ≡ asleep → Step s (record s { pc = update s.pc i ready })
  take :
      (i task : ℕ) (rest : List ℕ)
      → s.pc i ≡ ready
      → s.locked ≡ false
      → s.tasks ≡ task ∷ rest
      → Step s (record s {
        tasks = rest;
        taken = s.taken ++ task ∷ [];
        pc = update s.pc i (running task);
      })
  -- The task has returned or thrown.
  finish : (i task : ℕ) → s.pc i ≡ running task → Step s (record s { pc = update s.pc i ready })
  leave :
      (i : ℕ)
      → s.pc i ≡ ready
      → s.locked ≡ false
      → s.stop ≡ true
      → s.tasks ≡ []
      → Step s (record s { pc = update s.pc i exited })
  -- The destructor.
  set_stop : Step s (record s { stop = true })
  notify_all : s.stop ≡ true → Step s (record s { notified = true; pc = λ i. woken (s.pc i) })

pub data Reach (s : Pool) : Pool → Type 0 where
  here : Reach s s
  next : {t u : Pool} → Reach s t → Step t u → Reach s u

-- The workers have been made and have not taken the mutex yet.
abbrev pub new_pool : Pool
new_pool = record {
  tasks = [];
  stop = false;
  locked = false;
  notified = false;
  submitted = [];
  taken = [];
  pc = λ i. ready;
}
