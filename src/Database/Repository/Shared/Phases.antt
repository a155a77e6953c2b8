-- ===== src/Database/Repository/Shared/Phases.antt =====
-- The steps of a call, one behind the other, are the functions of the repository.
use ai_switch.Base.{ℕ, ◌≡◌, Bool, List, [], ◌∷◌, Bytes, arith}
use ai_switch.Base.Result.{ok}
use ai_switch.Database.Mysql.{Mysql}
use ai_switch.Database.ConnectionPool.{return_connection}
use ai_switch.Database.Repository.{
  Repository, find_api_key, find_with, find_stored, create_api_key, create_with, list_api_keys,
  list_with, list_stored, disable_api_key, disable_with, take, give_back, run_query, fetch, ask,
  in_buffer,
}
use ai_switch.Database.Repository.History.{Operation, find, create, list, disable}
use ai_switch.Database.Repository.Table.{KeyTable, Answer}
use ai_switch.Database.Repository.Table.Server.{Fits}
use ai_switch.Database.Repository.Table.Calls.{answer}
use ai_switch.Database.Repository.Shared.{statement, read_back, no_connection}

module _ (M : Mysql) (same : Bytes → Bytes → Bool) (table : M.Db → KeyTable) where
  open M use {Db, query}

  -- Where no other thread runs in between.
  pub answer-read_back :
      (op : Operation) (r : Repository Db) (conn : ℕ) (rest : List ℕ) (a : Answer) (db : Db)
      → r.pool.idle ≡ conn ∷ rest
      → Fits M same table op (table r.db)
      → read_back M op conn
          (query conn (statement M conn op) r.db).0
          (query conn (statement M conn op) r.db).1
        ≡ (ok a, db)
      → answer M op r
        ≡ (ok a, record { pool = return_connection conn (record { idle = rest }); db = db })
  unfolding answer read_back statement Fits find_api_key find_with find_stored create_api_key
      create_with list_api_keys list_with list_stored disable_api_key disable_with take give_back
      run_query fetch ask in_buffer return_connection
  answer-read_back (find key) r conn rest a db idle f e = ground (arith, f conn)
  answer-read_back (create drawn name limit) r conn rest a db idle f e =
      ground (arith, f.key_fits conn, f.name_fits conn)
  answer-read_back list r conn rest a db idle f e = ground arith
  answer-read_back (disable id) r conn rest a db idle f e = ground arith

  -- Where the pool has no connection for as long as the call waits.
  pub answer-no_connection :
      (op : Operation) (r : Repository Db)
      → r.pool.idle ≡ []
      → answer M op r ≡ (no_connection op, r)
  unfolding answer find_api_key find_with create_api_key create_with list_api_keys list_with
      disable_api_key disable_with take
  answer-no_connection (find key) r empty = ground arith
  answer-no_connection (create drawn name limit) r empty = ground arith
  answer-no_connection list r empty = ground arith
  answer-no_connection (disable id) r empty = ground arith
