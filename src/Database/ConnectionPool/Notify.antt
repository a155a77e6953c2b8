-- ===== src/Database/ConnectionPool/Notify.antt =====
-- The condition variable of src/db/connection_pool.cpp, lines 115-147, and any number of threads, the
-- first `n` of them: `borrow` sleeps in `wait_for`, and `return_connection` calls `notify_one` after it
-- has released the mutex. What happens under the mutex is one step, from a wake-up to the next sleep
-- or to the end of `borrow`.
pub mod Bound
pub mod Served
pub mod Lent
use ai_switch.Base.{ℕ, ◌<◌, ◌≡◌, ◌≢◌, List, [], Option, some}
use ai_switch.Base.Threads.{update}
use ai_switch.Database.ConnectionPool.{ConnectionPool, borrow, return_connection}

pub data Phase : Type 0 where
  absent : Phase
  asleep : Phase
  -- Behind a wake-up of any kind, and before the mutex.
  awake : Phase
  lent : (conn : ℕ) → Phase
  -- The connection is back, and `notify_one` is still to come.
  notifying : Phase

pub record Lending : Type 0 where
  pub pool : ConnectionPool
  pub phase : ℕ → Phase

pub data LendStep (n : ℕ) (s : Lending) : Lending → Type 0 where
  borrows :
      (i conn : ℕ) (pool : ConnectionPool)
      → i < n
      → s.phase i ≡ absent
      → borrow s.pool ≡ (some conn, pool)
      → LendStep n s (record { pool = pool; phase = update s.phase i (lent conn) })
  falls_asleep :
      (i : ℕ)
      → i < n
      → s.phase i ≡ absent
      → s.pool.idle ≡ []
      → LendStep n s (record s { phase = update s.phase i asleep })
  -- At the end of the 5 seconds, or for no reason.
  wakes_up :
      (i : ℕ)
      → i < n
      → s.phase i ≡ asleep
      → LendStep n s (record s { phase = update s.phase i awake })
  finds_one :
      (i conn : ℕ) (pool : ConnectionPool)
      → i < n
      → s.phase i ≡ awake
      → borrow s.pool ≡ (some conn, pool)
      → LendStep n s (record { pool = pool; phase = update s.phase i (lent conn) })
  sleeps_on :
      (i : ℕ)
      → i < n
      → s.phase i ≡ awake
      → s.pool.idle ≡ []
      → LendStep n s (record s { phase = update s.phase i asleep })
  gives_up :
      (i : ℕ)
      → i < n
      → s.phase i ≡ awake
      → s.pool.idle ≡ []
      → LendStep n s (record s { phase = update s.phase i absent })
  gives_back :
      (i conn : ℕ)
      → i < n
      → s.phase i ≡ lent conn
      → LendStep n s
          (record { pool = return_connection conn s.pool; phase = update s.phase i notifying })
  notifies_one :
      (i j : ℕ)
      → i < n
      → j < n
      → s.phase i ≡ notifying
      → s.phase j ≡ asleep
      → LendStep n s (record s { phase = update (update s.phase i absent) j awake })
  notifies_no_one :
      (i : ℕ)
      → i < n
      → s.phase i ≡ notifying
      → ((j : ℕ) → j < n → s.phase j ≢ asleep)
      → LendStep n s (record s { phase = update s.phase i absent })

pub data LendReach (n : ℕ) (s : Lending) : Lending → Type 0 where
  at_first : LendReach n s s
  and_then : {t u : Lending} → LendReach n s t → LendStep n t u → LendReach n s u

-- The constructor has filled the queue, and no thread has come yet.
abbrev pub opened : List ℕ → Lending
opened conns = record { pool = record { idle = conns }; phase = λ i. absent }
