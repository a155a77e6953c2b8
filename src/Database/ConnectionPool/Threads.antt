-- ===== src/Database/ConnectionPool/Threads.antt =====
-- src/db/connection_pool.cpp with any number of threads, the first `n` of them. What `borrow` and
-- `return_connection` do under the mutex is one step. A thread that waits may look at the queue at any
-- time, notified or not; its 5 seconds end for it only where the queue is empty, since the predicate
-- is tested once more then.
pub mod Conserved
use ai_switch.Base.{ℕ, ◌<◌, ◌≡◌, List, [], Option, some}
use ai_switch.Base.Threads.{update}
use ai_switch.Database.ConnectionPool.{ConnectionPool, borrow, return_connection}

pub data Borrower : Type 0 where
  outside : Borrower
  waiting : Borrower
  holding : (conn : ℕ) → Borrower

pub record Threads : Type 0 where
  pub pool : ConnectionPool
  pub pc : ℕ → Borrower

pub data Step (n : ℕ) (s : Threads) : Threads → Type 0 where
  take_at_once :
      (i conn : ℕ) (pool : ConnectionPool)
      → i < n
      → s.pc i ≡ outside
      → borrow s.pool ≡ (some conn, pool)
      → Step n s (record { pool = pool; pc = update s.pc i (holding conn) })
  wait :
      (i : ℕ)
      → i < n
      → s.pc i ≡ outside
      → s.pool.idle ≡ []
      → Step n s (record s { pc = update s.pc i waiting })
  take_later :
      (i conn : ℕ) (pool : ConnectionPool)
      → i < n
      → s.pc i ≡ waiting
      → borrow s.pool ≡ (some conn, pool)
      → Step n s (record { pool = pool; pc = update s.pc i (holding conn) })
  time_out :
      (i : ℕ)
      → i < n
      → s.pc i ≡ waiting
      → s.pool.idle ≡ []
      → Step n s (record s { pc = update s.pc i outside })
  give_back :
      (i conn : ℕ)
      → i < n
      → s.pc i ≡ holding conn
      → Step n s (record { pool = return_connection conn s.pool; pc = update s.pc i outside })

pub data Reach (n : ℕ) (s : Threads) : Threads → Type 0 where
  here : Reach n s s
  next : {t u : Threads} → Reach n s t → Step n t u → Reach n s u

-- The constructor has filled the queue, and no thread has come yet.
abbrev pub begin : List ℕ → Threads
begin conns = record { pool = record { idle = conns }; pc = λ i. outside }
