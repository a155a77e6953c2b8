-- ===== src/Database/Repository/Table/Calls.antt =====
-- One call of the repository against the table, where a connection is idle.
use ai_switch.Base.{
  ℕ, ◌<◌, ◌≡◌, ◌∙◌, Bool, List, [], ◌∷◌, ◌++◌, none, some, Bytes, length, All, arith,
}
use ai_switch.Base.Int.{ℤ}
use ai_switch.Base.Result.{ok, return, ◌>>=◌}
use ai_switch.Database.Mysql.{Mysql}
use ai_switch.Database.Repository.{
  ApiKeyInfo, Repository, RepoM, generate_api_key, select_sql, insert_sql, list_sql, disable_sql,
  find_api_key, find_with, find_stored, create_api_key, create_with, list_api_keys, list_with,
  list_stored, disable_api_key, disable_with, take, give_back, run_query, fetch, ask, in_buffer,
}
use ai_switch.Database.Repository.Created.{IsInRange}
use ai_switch.Database.Repository.History.{Operation, find, create, list, disable}
use ai_switch.Database.Repository.Table.{
  KeyTable, Answer, found, made, listed, disabled, find_key, perform,
}
use ai_switch.Database.Repository.Table.Rows.{
  at_most_one, stored_rows, read_rows-stored_rows, first_row-find_key,
}
use ai_switch.Database.Repository.Table.Server.{
  IsAnswered, IsInserted, IsRefused, IsUpdated, FitsNew,
}

pub table_path : (a b : KeyTable) → a.keys ≡ b.keys → a.next_id ≡ b.next_id → a ≡ b
table_path a b p q = cc

module _ (M : Mysql) where
  unfoldable pub answer : Operation → RepoM M Answer
  answer (find key) = do result ← find_api_key M key; return (found result)
  answer (create drawn name limit) = do info ← create_api_key M drawn name limit; return (made info)
  answer list = do keys ← list_api_keys M; return (listed keys)
  answer (disable id) = do affected ← disable_api_key M id; return (disabled affected)

module _ (M : Mysql) (same : Bytes → Bytes → Bool) (table : M.Db → KeyTable) where
  open M use {Db, escape}

  -- A call that returns what the table says, leaves the table as it says, and returns its connection.
  pub record IsPerformed (op : Operation) (r : Repository Db) (conn : ℕ) (rest : List ℕ)
      : Type 0 where
    pub answered : (answer M op r).0 ≡ ok (perform same op (table r.db)).0
    pub stored : table (answer M op r).1.db ≡ (perform same op (table r.db)).1
    pub idle : (answer M op r).1.pool.idle ≡ rest ++ conn ∷ []

  module _ (r : Repository Db) (conn : ℕ) (rest : List ℕ) (idle : r.pool.idle ≡ conn ∷ rest) where
    pub find-IsPerformed :
        (key : Bytes)
        → All IsInRange (table r.db).keys
        → ((c : ℕ) → length (escape c key) < 256)
        → IsAnswered M same table conn
            (select_sql (escape conn key))
            r.db
            (at_most_one (find_key same key (table r.db).keys))
        → IsPerformed (find key) r conn rest
    unfolding answer perform find_api_key find_with find_stored take in_buffer run_query fetch
        give_back
    find-IsPerformed key range fits a =
        let read = first_row-find_key same key (table r.db).keys range in
        record {
          answered = ground (arith, a.asked, a.stored, read, fits conn);
          stored = ground (arith, a.asked, a.stored, read, a.kept, fits conn);
          idle = ground (arith, a.asked, a.stored, read, fits conn);
        }

    pub list-IsPerformed :
        All IsInRange (table r.db).keys
        → IsAnswered M same table conn list_sql r.db (stored_rows (table r.db).keys)
        → IsPerformed list r conn rest
    unfolding answer perform list_api_keys list_with list_stored take run_query fetch give_back
    list-IsPerformed range a =
        let read = read_rows-stored_rows (table r.db).keys range in
        record {
          answered = ground (arith, a.asked, a.stored, read);
          stored = ground (arith, a.asked, a.stored, read, a.kept);
          idle = ground (arith, a.asked, a.stored, read);
        }

    pub disable-IsPerformed :
        (id : ℤ)
        → IsUpdated M same table conn id (disable_sql id) r.db
        → IsPerformed (disable id) r conn rest
    unfolding answer perform disable_api_key disable_with take run_query ask give_back
    disable-IsPerformed id u = record {
      answered = ground (arith, u.asked, u.affected);
      stored = ground (
        arith,
        u.asked,
        table_path _ (perform same (disable id) (table r.db)).1 u.keys u.next_id,
      );
      idle = ground (arith, u.asked);
    }

    pub fresh-IsPerformed :
        (drawn : List ℕ) (name : Bytes) (limit : ℤ)
        → FitsNew M same table drawn name limit (table r.db)
        → find_key same (generate_api_key drawn) (table r.db).keys ≡ none
        → IsInserted M same table conn
            (generate_api_key drawn)
            name
            limit
            (insert_sql (escape conn (generate_api_key drawn)) (escape conn name) limit)
            r.db
        → IsPerformed (create drawn name limit) r conn rest
    unfolding answer perform create_api_key create_with take in_buffer run_query ask give_back
    fresh-IsPerformed drawn name limit f fresh a = record {
      answered = ground (arith, a.asked, a.number, fresh, f.key_fits conn, f.name_fits conn);
      stored = ground (
        arith,
        a.asked,
        fresh,
        f.key_fits conn,
        f.name_fits conn,
        table_path _ (perform same (create drawn name limit) (table r.db)).1
            (a.keys ∙ ground (arith, fresh)) (a.next_id ∙ ground (arith, fresh)),
      );
      idle = ground (arith, a.asked, f.key_fits conn, f.name_fits conn);
    }

    pub refused-IsPerformed :
        (drawn : List ℕ) (name : Bytes) (limit : ℤ) (info : ApiKeyInfo)
        → FitsNew M same table drawn name limit (table r.db)
        → find_key same (generate_api_key drawn) (table r.db).keys ≡ some info
        → IsRefused M same table conn
            (insert_sql (escape conn (generate_api_key drawn)) (escape conn name) limit)
            r.db
        → IsPerformed (create drawn name limit) r conn rest
    unfolding answer perform create_api_key create_with take in_buffer run_query ask give_back
    refused-IsPerformed drawn name limit info f there a = record {
      answered = ground (arith, a.asked, there, f.key_fits conn, f.name_fits conn);
      stored = ground (
        arith,
        a.asked,
        there,
        f.key_fits conn,
        f.name_fits conn,
        table_path _ (perform same (create drawn name limit) (table r.db)).1
            (a.keys ∙ ground (arith, there)) (a.next_id ∙ ground (arith, there)),
      );
      idle = ground (arith, a.asked, f.key_fits conn, f.name_fits conn);
    }
