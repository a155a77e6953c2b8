-- ===== src/Database/Repository/Table/Server.antt =====
-- What the repository relies on: the server does what its statements say.
use ai_switch.Base.{
  ℕ, suc, ◌-◌, ◌^◌, ◌<◌, ◌≡◌, Bool, true, false, List, [], ◌∷◌, ◌++◌, none, some, Bytes, bytes,
  length,
}
use ai_switch.Base.Numbers.{to_string}
use ai_switch.Base.Int.{ℤ, pos, negsuc, ◌≤ℤ◌}
use ai_switch.Database.Mysql.{Mysql, Row}
use ai_switch.Database.Repository.{ApiKeyInfo, generate_api_key, created}
use ai_switch.Database.Repository.History.{Operation, find, create, list, disable}
use ai_switch.Database.Repository.Table.{KeyTable, find_key, changed, disable_all, perform}
use ai_switch.Database.Repository.Table.Rows.{at_most_one, stored_rows}

-- The statements in use, as the server reads them.
abbrev select_text : Bytes → Bytes
select_text key =
    bytes "SELECT id, api_key, name, rate_limit, enabled FROM api_keys WHERE api_key = '"
    ++ key
    ++ bytes "' LIMIT 1"

abbrev insert_text : Bytes → Bytes → ℤ → Bytes
insert_text key name limit =
    bytes "INSERT INTO api_keys (api_key, name, rate_limit, enabled) VALUES ('"
    ++ key
    ++ bytes "', '"
    ++ name
    ++ bytes "', "
    ++ to_string limit
    ++ bytes ", 1)"

abbrev list_text : Bytes
list_text = bytes "SELECT id, api_key, name, rate_limit, enabled FROM api_keys ORDER BY id"

abbrev disable_text : ℤ → Bytes
disable_text id = bytes "UPDATE api_keys SET enabled = 0 WHERE id = " ++ to_string id

module _ (M : Mysql) (same : Bytes → Bytes → Bool) (table : M.Db → KeyTable) where
  open M use {Db, escape, query, store_result, insert_id, affected_rows}

  -- A query is answered with these rows, and the table stays.
  pub record IsAnswered (c : ℕ) (sql : Bytes) (db : Db) (rows : List Row) : Type 0 where
    pub asked : (query c sql db).0 ≡ true
    pub stored : (store_result c (query c sql db).1).0 ≡ some rows
    pub kept : table (store_result c (query c sql db).1).1 ≡ table db

  pub record IsInserted (c : ℕ) (key name : Bytes) (limit : ℤ) (sql : Bytes) (db : Db)
      : Type 0 where
    pub asked : (query c sql db).0 ≡ true
    pub number : insert_id c (query c sql db).1 ≡ (table db).next_id
    pub keys :
        (table (query c sql db).1).keys
        ≡ (table db).keys ++ created (table db).next_id key name limit ∷ []
    pub next_id : (table (query c sql db).1).next_id ≡ suc (table db).next_id

  pub record IsRefused (c : ℕ) (sql : Bytes) (db : Db) : Type 0 where
    pub asked : (query c sql db).0 ≡ false
    pub keys : (table (query c sql db).1).keys ≡ (table db).keys
    pub next_id : (table (query c sql db).1).next_id ≡ suc (table db).next_id

  pub record IsUpdated (c : ℕ) (id : ℤ) (sql : Bytes) (db : Db) : Type 0 where
    pub asked : (query c sql db).0 ≡ true
    pub affected : affected_rows c (query c sql db).1 ≡ changed id (table db).keys
    pub keys : (table (query c sql db).1).keys ≡ disable_all id (table db).keys
    pub next_id : (table (query c sql db).1).next_id ≡ (table db).next_id

  -- The statements of these operations, as the server documents them: `table` is what it stores, and the
  -- texts in them fit their columns.
  pub record IsServer (Covers : Operation → Type 0) : Type 0 where
    pub selects :
        (c : ℕ) (key : Bytes) (db : Db)
        → Covers (find key)
        → IsAnswered c
            (select_text (escape c key))
            db
            (at_most_one (find_key same key (table db).keys))
    pub inserts :
        (c : ℕ) (drawn : List ℕ) (name : Bytes) (limit : ℤ) (db : Db)
        → Covers (create drawn name limit)
        → find_key same (generate_api_key drawn) (table db).keys ≡ none
        → IsInserted c
            (generate_api_key drawn)
            name
            limit
            (insert_text (escape c (generate_api_key drawn)) (escape c name) limit)
            db
    pub refuses :
        (c : ℕ) (drawn : List ℕ) (name : Bytes) (limit : ℤ) (db : Db) (info : ApiKeyInfo)
        → Covers (create drawn name limit)
        → find_key same (generate_api_key drawn) (table db).keys ≡ some info
        → IsRefused c (insert_text (escape c (generate_api_key drawn)) (escape c name) limit) db
    pub lists :
        (c : ℕ) (db : Db) → Covers list → IsAnswered c list_text db (stored_rows (table db).keys)
    pub updates :
        (c : ℕ) (id : ℤ) (db : Db) → Covers (disable id) → IsUpdated c id (disable_text id) db

  -- What the buffers and the types of the numbers hold.
  pub record FitsNew (drawn : List ℕ) (name : Bytes) (limit : ℤ) (t : KeyTable) : Type 0 where
    pub key_fits : (c : ℕ) → length (escape c (generate_api_key drawn)) < 256
    pub name_fits : (c : ℕ) → length (escape c name) < 256
    pub limit_least : negsuc (2 ^ 31 - 1) ≤ℤ limit
    pub limit_most : limit ≤ℤ pos (2 ^ 31 - 1)
    pub id_most : t.next_id < 2 ^ 63

  unfoldable pub Fits : Operation → KeyTable → Type 0
  Fits (find key) t = (c : ℕ) → length (escape c key) < 256
  Fits (create drawn name limit) t = FitsNew drawn name limit t
  Fits list t = Unit {0}
  Fits (disable id) t = Unit {0}

  -- At every operation of a history, on the table as it is then.
  unfoldable pub AllFit : (Operation → Type 0) → List Operation → KeyTable → Type 0
  AllFit Covers [] t = Unit {0}
  AllFit Covers (op ∷ ops) t = Covers op × Fits op t × AllFit Covers ops (perform same op t).1
