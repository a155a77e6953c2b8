-- ===== src/Database/Repository/Shared.antt =====
-- src/db/repository.cpp with any number of threads, the first `n` of them, that share the pool and the
-- server. A call is three steps, between which other threads run: it borrows a connection, it runs
-- its statement, and it reads what the server has for the connection and returns it. A wait for a
-- connection changes nothing; after 5 seconds of it the call has a null pointer, which a lookup reports and
-- which the other calls hand to MySQL: undefined behaviour, with which a run ends.
pub mod Phases
pub mod Separate
pub mod Exclusive
pub mod Due
pub mod Linear
use ai_switch.Base.{
  ℕ, ◌<◌, ◌≡◌, Bool, true, false, List, [], ◌∷◌, ◌++◌, Option, none, some, Bytes, ltb,
}
use ai_switch.Base.Result.{Result, ok, fault, and_then}
use ai_switch.Base.Threads.{update}
use ai_switch.Database.Mysql.{Mysql, Row}
use ai_switch.Database.ConnectionPool.{ConnectionPool, borrow, return_connection}
use ai_switch.Database.Repository.{
  ApiKeyInfo, no_info, failed, created, generate_api_key, select_sql, insert_sql, list_sql,
  disable_sql, first_row, read_rows,
}
use ai_switch.Database.Repository.History.{Operation, find, create, list, disable}
use ai_switch.Database.Repository.Table.{Answer, found, made, listed, disabled}

-- `before` are the calls whose statements ran before that of this one; it is kept for the theorems only.
pub data Call : Type 0 where
  outside : Call
  borrowed : (op : Operation) (conn : ℕ) → Call
  asked : (op : Operation) (conn : ℕ) (done : Bool) (before : List Operation) → Call
  returned : (op : Operation) (answer : Answer) (before : List Operation) → Call
  -- It got no connection and has returned.
  unserved : (op : Operation) (answer : Answer) → Call

-- What a call that has returned has returned.
abbrev pub answer_of : Call → Option (Operation × Answer)
answer_of outside = none
answer_of (borrowed op conn) = none
answer_of (asked op conn done before) = none
answer_of (returned op answer before) = some (op, answer)
answer_of (unserved op answer) = some (op, answer)

-- What a call does with a null pointer in place of a connection.
abbrev pub no_connection : Operation → Result Answer
no_connection (find key) = ok (found failed)
no_connection (create drawn name limit) = fault
no_connection list = fault
no_connection (disable id) = fault

abbrev rows_found : Option (List Row) → Result Answer
rows_found none = ok (found failed)
rows_found (some rows) = and_then (first_row rows) λ result. ok (found result)

abbrev rows_listed : Option (List Row) → Result Answer
rows_listed none = ok (listed [])
rows_listed (some rows) = and_then (read_rows rows) λ keys. ok (listed keys)

module _ (M : Mysql) where
  open M use {Db, escape, query, store_result, insert_id, affected_rows}

  unfoldable pub statement : ℕ → Operation → Bytes
  statement conn (find key) = select_sql (escape conn key)
  statement conn (create drawn name limit) =
      insert_sql (escape conn (generate_api_key drawn)) (escape conn name) limit
  statement conn list = list_sql
  statement conn (disable id) = disable_sql id

  -- What follows the statement, which has returned 0 or not.
  unfoldable pub read_back : Operation → ℕ → Bool → Db → Result Answer × Db
  read_back (find key) conn true db =
      let (rows, db') = store_result conn db in (rows_found rows, db')
  read_back (find key) conn false db = (ok (found failed), db)
  read_back (create drawn name limit) conn true db =
      (ok (made (created (insert_id conn db) (generate_api_key drawn) name limit)), db)
  read_back (create drawn name limit) conn false db = (ok (made no_info), db)
  read_back list conn true db = let (rows, db') = store_result conn db in (rows_listed rows, db')
  read_back list conn false db = (ok (listed []), db)
  read_back (disable id) conn true db = (ok (disabled (ltb 0 (affected_rows conn db))), db)
  read_back (disable id) conn false db = (ok (disabled false), db)

  pub record Sharing : Type 0 where
    pub pool : ConnectionPool
    pub db : Db
    pub pc : ℕ → Call
    -- The calls whose statements have run so far.
    pub log : List Operation
    -- Whether there was undefined behaviour.
    pub broken : Bool

  -- `Fits` tells for which calls the texts and the numbers fit, as the server is then.
  pub data ShareStep (Fits : Operation → Db → Type 0) (n : ℕ) (s : Sharing) : Sharing → Type 0 where
    borrows :
        (i conn : ℕ) (op : Operation) (pool : ConnectionPool)
        → i < n
        → s.pc i ≡ outside
        → borrow s.pool ≡ (some conn, pool)
        → ShareStep Fits n s (record s { pool = pool; pc = update s.pc i (borrowed op conn) })
    asks :
        (i conn : ℕ) (op : Operation)
        → i < n
        → s.pc i ≡ borrowed op conn
        → Fits op s.db
        → ShareStep Fits n s (record s {
          db = (query conn (statement conn op) s.db).1;
          pc = update s.pc i (asked op conn (query conn (statement conn op) s.db).0 s.log);
          log = s.log ++ op ∷ [];
        })
    returns :
        (i conn : ℕ) (op : Operation) (done : Bool) (before : List Operation) (answer : Answer)
        (db : Db)
        → i < n
        → s.pc i ≡ asked op conn done before
        → read_back op conn done s.db ≡ (ok answer, db)
        → ShareStep Fits n s (record s {
          pool = return_connection conn s.pool;
          db = db;
          pc = update s.pc i (returned op answer before);
        })
    fails :
        (i : ℕ) (op : Operation) (answer : Answer)
        → i < n
        → s.pc i ≡ outside
        → s.pool.idle ≡ []
        → no_connection op ≡ ok answer
        → ShareStep Fits n s (record s { pc = update s.pc i (unserved op answer) })
    breaks :
        (i : ℕ) (op : Operation)
        → i < n
        → s.pc i ≡ outside
        → s.pool.idle ≡ []
        → no_connection op ≡ fault
        → ShareStep Fits n s (record s { broken = true })
    calls_again :
        (i : ℕ) (op : Operation) (answer : Answer)
        → i < n
        → answer_of (s.pc i) ≡ some (op, answer)
        → ShareStep Fits n s (record s { pc = update s.pc i outside })

  pub data ShareReach (Fits : Operation → Db → Type 0) (n : ℕ) (s : Sharing)
      : Sharing → Type 0 where
    from_here : ShareReach Fits n s s
    one_more :
        {t u : Sharing}
        → ShareReach Fits n s t
        → t.broken ≡ false
        → ShareStep Fits n t u
        → ShareReach Fits n s u

  abbrev pub shared : List ℕ → Db → Sharing
  shared conns db = record {
    pool = record { idle = conns };
    db = db;
    pc = λ i. outside;
    log = [];
    broken = false;
  }
