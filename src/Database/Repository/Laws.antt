-- ===== src/Database/Repository/Laws.antt =====
-- Connections come back, and what a lookup finds.
use ai_switch.Base.{
  ℕ, ◌≡◌, refl, inl, inr, Bool, true, List, [], ◌∷◌, ◌++◌, Option, none, some, Bytes, bytes, arith,
  List-cases, Option-cases, str_eq→eq, ap, ◌∙◌,
}
use ai_switch.Base.Int.{ℤ}
use ai_switch.Base.Result.{ok, Result-cases}
use ai_switch.Database.Mysql.{Mysql, Row}
use ai_switch.Database.Repository.{
  ApiKeyInfo, ApiKeyResult, failed, Repository, read_row, first_row, in_buffer, take, give_back,
  run_query, fetch, ask, find_stored, find_with, find_api_key, create_with, create_api_key,
  list_stored, list_with, list_api_keys, disable_with, disable_api_key, select_sql,
  generate_api_key, is_one,
}

-- The idle queue after a connection is borrowed and returned.
abbrev pub rotate : List ℕ → List ℕ
rotate [] = []
rotate (conn ∷ rest) = rest ++ conn ∷ []

read_row-enabled :
    (row : Row) (info : ApiKeyInfo) → read_row row ≡ ok info → info.enabled ≡ is_one row.enabled
unfolding read_row
read_row-enabled row info e = ground arith

is_one-true : (o : Option Bytes) → is_one o ≡ true → o ≡ some (bytes "1")
is_one-true none h = cc
is_one-true (some s) h = ap some (str_eq→eq s (bytes "1") h)

module _ (M : Mysql) where
  open M use {Db, escape, query, store_result}

  find_with-rotate :
      (conn : ℕ) (key : Bytes) (r r' : Repository Db) (found : ApiKeyResult)
      → find_with M conn key r ≡ (ok found, r')
      → r'.pool.idle ≡ r.pool.idle ++ conn ∷ []
  unfolding find_with find_stored run_query fetch give_back
  find_with-rotate conn key r r' found e = ground arith

  create_with-rotate :
      (conn : ℕ) (api_key name : Bytes) (limit : ℤ) (r r' : Repository Db) (made : ApiKeyInfo)
      → create_with M conn api_key name limit r ≡ (ok made, r')
      → r'.pool.idle ≡ r.pool.idle ++ conn ∷ []
  unfolding create_with run_query ask give_back
  create_with-rotate conn api_key name limit r r' made e = ground arith

  list_with-rotate :
      (conn : ℕ) (r r' : Repository Db) (keys : List ApiKeyInfo)
      → list_with M conn r ≡ (ok keys, r')
      → r'.pool.idle ≡ r.pool.idle ++ conn ∷ []
  unfolding list_with list_stored run_query fetch give_back
  list_with-rotate conn r r' keys e = ground arith

  disable_with-rotate :
      (conn : ℕ) (id : ℤ) (r r' : Repository Db) (done : Bool)
      → disable_with M conn id r ≡ (ok done, r')
      → r'.pool.idle ≡ r.pool.idle ++ conn ∷ []
  unfolding disable_with run_query ask give_back
  disable_with-rotate conn id r r' done e = ground arith

  -- A lookup that returns, with whatever result, has put the connection that it took back at the end
  -- of the queue, and moved no other.
  pub find_api_key-rotate :
      (key : Bytes) (r r' : Repository Db) (found : ApiKeyResult)
      → find_api_key M key r ≡ (ok found, r')
      → r'.pool.idle ≡ rotate r.pool.idle
  unfolding find_api_key take
  find_api_key-rotate key r r' found e = elim (List-cases r.pool.idle) [
    | inl empty ↦ ground arith
    | inr (conn, rest, some_idle) ↦
        ground
          (arith, find_with-rotate conn key (record r { pool = record { idle = rest } }) r' found)
  ]

  -- An insertion that returns, whether its query succeeded or not, has put the connection that it took
  -- back at the end of the queue, and moved no other.
  pub create_api_key-rotate :
      (drawn : List ℕ) (name : Bytes) (limit : ℤ) (r r' : Repository Db) (made : ApiKeyInfo)
      → create_api_key M drawn name limit r ≡ (ok made, r')
      → r'.pool.idle ≡ rotate r.pool.idle
  unfolding create_api_key take
  create_api_key-rotate drawn name limit r r' made e = elim (List-cases r.pool.idle) [
    | inl empty ↦ ground arith
    | inr (conn, rest, some_idle) ↦ ground (
      arith,
      create_with-rotate conn (generate_api_key drawn) name limit
          (record r { pool = record { idle = rest } }) r' made,
    )
  ]

  -- A listing of the keys that returns, whether its query succeeded or not, has put the connection that
  -- it took back at the end of the queue, and moved no other.
  pub list_api_keys-rotate :
      (r r' : Repository Db) (keys : List ApiKeyInfo)
      → list_api_keys M r ≡ (ok keys, r')
      → r'.pool.idle ≡ rotate r.pool.idle
  unfolding list_api_keys take
  list_api_keys-rotate r r' keys e = elim (List-cases r.pool.idle) [
    | inl empty ↦ ground arith
    | inr (conn, rest, some_idle) ↦
        ground (arith, list_with-rotate conn (record r { pool = record { idle = rest } }) r' keys)
  ]

  -- A call that disables a key and returns, whether its query succeeded or not, has put the connection
  -- that it took back at the end of the queue, and moved no other.
  pub disable_api_key-rotate :
      (id : ℤ) (r r' : Repository Db) (done : Bool)
      → disable_api_key M id r ≡ (ok done, r')
      → r'.pool.idle ≡ rotate r.pool.idle
  unfolding disable_api_key take
  disable_api_key-rotate id r r' done e = elim (List-cases r.pool.idle) [
    | inl empty ↦ ground arith
    | inr (conn, rest, some_idle) ↦
        ground
          (arith, disable_with-rotate conn id (record r { pool = record { idle = rest } }) r' done)
  ]

  -- What a lookup over a connection found, and where.
  pub record IsFound (key : Bytes) (db : Db) (conn : ℕ) (info : ApiKeyInfo) : Type 0 where
    pub row : Row
    pub rows : List Row
    pub asked : (query conn (select_sql (escape conn key)) db).0 ≡ true
    pub stored :
        (store_result conn (query conn (select_sql (escape conn key)) db).1).0 ≡ some (row ∷ rows)
    pub enabled : row.enabled ≡ some (bytes "1")
    pub reads : read_row row ≡ ok info

  first_row_found :
      (rows : List Row) (res : ApiKeyResult)
      → first_row rows ≡ ok res
      → res.found ≡ true
      → (row : Row) × (others : List Row) × (rows ≡ row ∷ others)
        × (row.enabled ≡ some (bytes "1"))
        × (read_row row ≡ ok res.info)
  unfolding first_row
  first_row_found [] res e f = cc
  first_row_found (row ∷ others) res e f = elim (Result-cases (read_row row)) [
    | inl (info, reads) ↦
        let same : res.info ≡ info = ground arith in
        let enabled : info.enabled ≡ true = ground arith in
        (
          row,
          others,
          refl,
          is_one-true row.enabled (ground (arith, read_row-enabled row info reads)),
          rw same reads,
        )
    | inr failed ↦ absurd (ground arith)
  ]

  find_with_found :
      (conn : ℕ) (key : Bytes) (r r' : Repository Db) (res : ApiKeyResult)
      → find_with M conn key r ≡ (ok res, r')
      → res.found ≡ true
      → IsFound key r.db conn res.info
  unfolding find_with find_stored run_query fetch give_back in_buffer
  find_with_found conn key r r' res e f =
      elim (Option-cases (store_result conn (query conn (select_sql (escape conn key)) r.db).1).0) [
        | inl missing ↦ ground arith
        | inr (rows, stored) ↦
            let (row, others, split, enabled, reads) = first_row_found rows res (ground arith) f in
            record {
              row = row;
              rows = others;
              asked = ground arith;
              stored = stored ∙ ap some split;
              enabled = enabled;
              reads = reads;
            }
      ]

  -- A key is found only where a connection was idle, the query for the escaped key ran, and the first
  -- row that it gave is enabled; the information is what this row reads as.
  pub find_api_key_found :
      (key : Bytes) (r r' : Repository Db) (res : ApiKeyResult)
      → find_api_key M key r ≡ (ok res, r')
      → res.found ≡ true
      → (conn : ℕ) × (rest : List ℕ) × (r.pool.idle ≡ conn ∷ rest) × IsFound key r.db conn res.info
  unfolding find_api_key take
  find_api_key_found key r r' res e f = elim (List-cases r.pool.idle) [
    | inl empty ↦ ground arith
    | inr (conn, rest, some_idle) ↦ (
      conn,
      rest,
      some_idle,
      find_with_found conn key (record r { pool = record { idle = rest } }) r' res (ground arith) f,
    )
  ]
