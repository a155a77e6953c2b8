-- ===== src/Database/Repository.antt =====
-- src/db/repository.h and src/db/repository.cpp
pub mod Laws
pub mod History
pub mod Created
pub mod Table
pub mod Shared
use ai_switch.Base.{
  ℕ, zero, suc, ◌+◌, ◌-◌, ◌≤◌, ◌<◌, Bool, true, false, not, ◌&&◌, List, [], ◌∷◌, ◌++◌, map, Option,
  none, some, Bytes, bytes, if◌then◌else◌, ltb, length, str_eq,
}
use ai_switch.Base.Int.{ℤ, pos}
use ai_switch.Base.Result.{
  Result, ok, throw, fault, and_then, Eff, return, lift, ◌>>=◌, ◌>>◌, continue, zoom,
}
use ai_switch.Base.Numbers.{stoll, stoi, to_string}
use ai_switch.Database.Mysql.{Mysql, Row}
use ai_switch.Database.ConnectionPool.{ConnectionPool, borrow, return_connection}

pub record ApiKeyInfo : Type 0 where
  pub id : ℤ
  pub api_key : Bytes
  pub name : Bytes
  pub rate_limit : ℤ
  pub enabled : Bool

abbrev pub no_info : ApiKeyInfo
no_info = record { id = pos 0; api_key = []; name = []; rate_limit = pos 0; enabled = false }

pub record ApiKeyResult : Type 0 where
  pub info : ApiKeyInfo
  pub found : Bool
  pub db_error : Bool

abbrev pub failed : ApiKeyResult
failed = record { info = no_info; found = false; db_error = true }

abbrev pub not_found : ApiKeyResult
not_found = record { info = no_info; found = false; db_error = false }

pub record Repository (Db : Type 0) : Type 0 where
  pub pool : ConnectionPool
  pub db : Db

-- `p ? f(p) : d`
abbrev pub column {ℓ} : {A : Type ℓ} → (Bytes → Result A) → A → Option Bytes → Result A
column f d none = ok d
column f d (some s) = f s

abbrev pub is_one : Option Bytes → Bool
is_one none = false
is_one (some s) = str_eq s (bytes "1")

-- The conversion of a row, which throws at a column that is not a number.
unfoldable pub read_row : Row → Result ApiKeyInfo
read_row row = and_then (column stoll (pos 0) row.id) λ id.
    and_then (column (λ s. ok s) [] row.api_key) λ api_key.
      and_then (column (λ s. ok s) [] row.name) λ name.
        and_then (column stoi (pos 60) row.rate_limit) λ rate_limit. ok (record {
          id = id;
          api_key = api_key;
          name = name;
          rate_limit = rate_limit;
          enabled = is_one row.enabled;
        })

unfoldable pub first_row : List Row → Result ApiKeyResult
first_row [] = ok not_found
first_row (row ∷ _) = and_then (read_row row) λ info.
    ok (if info.enabled then record { info = info; found = true; db_error = false } else not_found)

unfoldable pub read_rows : List Row → Result (List ApiKeyInfo)
read_rows [] = ok []
read_rows (row ∷ rows) =
    and_then (read_row row) λ info. and_then (read_rows rows) λ infos. ok (info ∷ infos)

-- `char escaped[256]`: the escaped text and its final zero have to fit.
unfoldable pub in_buffer : Bytes → Result Bytes
in_buffer s = if ltb (length s) 256 then ok s else fault

-- The digits that the random generator draws, 32 numbers below 16.
abbrev pub hex_char : ℕ → ℕ
hex_char n = if ltb n 10 then b'0' + n else b'a' + (n - 10)

unfoldable pub generate_api_key : List ℕ → Bytes
generate_api_key drawn = bytes "sk_" ++ map hex_char drawn

abbrev pub select_sql : Bytes → Bytes
select_sql escaped_key =
    bytes "SELECT id, api_key, name, rate_limit, enabled FROM api_keys WHERE api_key = '"
    ++ escaped_key
    ++ bytes "' LIMIT 1"

abbrev pub insert_sql : Bytes → Bytes → ℤ → Bytes
insert_sql escaped_key escaped_name rate_limit =
    bytes "INSERT INTO api_keys (api_key, name, rate_limit, enabled) VALUES ('"
    ++ escaped_key
    ++ bytes "', '"
    ++ escaped_name
    ++ bytes "', "
    ++ to_string rate_limit
    ++ bytes ", 1)"

abbrev pub list_sql : Bytes
list_sql = bytes "SELECT id, api_key, name, rate_limit, enabled FROM api_keys ORDER BY id"

abbrev pub disable_sql : ℤ → Bytes
disable_sql id = bytes "UPDATE api_keys SET enabled = 0 WHERE id = " ++ to_string id

abbrev pub created : ℕ → Bytes → Bytes → ℤ → ApiKeyInfo
created new_id api_key name rate_limit = record {
  id = pos new_id;
  api_key = api_key;
  name = name;
  rate_limit = rate_limit;
  enabled = true;
}

module _ (M : Mysql) where
  open M use {Db, escape, query, store_result, insert_id, affected_rows}

  abbrev pub RepoM {ℓ} : Type ℓ → Type ℓ
  RepoM A = Eff (Repository Db) A

  unfoldable pub take : RepoM (Option ℕ)
  unfolding borrow
  take r = let (conn, p) = borrow r.pool in (ok conn, record r { pool = p })

  unfoldable pub give_back : ℕ → RepoM (Unit {0})
  unfolding return_connection
  give_back conn r = (ok tt, record r { pool = return_connection conn r.pool })

  unfoldable pub run_query : ℕ → Bytes → RepoM Bool
  run_query conn sql r = let (done, db) = query conn sql r.db in (ok done, record r { db = db })

  unfoldable pub fetch : ℕ → RepoM (Option (List Row))
  fetch conn r = let (rows, db) = store_result conn r.db in (ok rows, record r { db = db })

  unfoldable pub ask {ℓ} : {A : Type ℓ} → (Db → A) → RepoM A
  ask f r = (ok (f r.db), r)

  -- Return the connection, then the value.
  abbrev pub giving {ℓ} : {A : Type ℓ} → ℕ → A → RepoM A
  giving conn a = do give_back conn; return a

  -- A row that cannot be read throws with the connection still out.
  unfoldable pub find_stored : ℕ → RepoM ApiKeyResult
  find_stored conn = do
    stored ← fetch conn
    elim stored [
      | none ↦ giving conn failed
      | some rows ↦ (do result ← lift (first_row rows); giving conn result)
    ]

  unfoldable pub find_with : ℕ → Bytes → RepoM ApiKeyResult
  find_with conn key = do
    escaped_key ← lift (in_buffer (escape conn key))
    done ← run_query conn (select_sql escaped_key)
    elim done [ true ↦ find_stored conn | false ↦ giving conn failed ]

  unfoldable pub find_api_key : Bytes → RepoM ApiKeyResult
  find_api_key key = do conn ← take; elim conn [ none ↦ return failed | some c ↦ find_with c key ]

  unfoldable pub create_with : ℕ → Bytes → Bytes → ℤ → RepoM ApiKeyInfo
  create_with conn api_key name rate_limit = do
    escaped_name ← lift (in_buffer (escape conn name))
    escaped_key ← lift (in_buffer (escape conn api_key))
    done ← run_query conn (insert_sql escaped_key escaped_name rate_limit)
    elim done [
      | true ↦ (do
        new_id ← ask (insert_id conn)
        giving conn (created new_id api_key name rate_limit))
      | false ↦ giving conn no_info
    ]

  -- `create_api_key`, `list_api_keys` and `disable_api_key` use the connection without a check: a null
  -- pointer is followed.
  unfoldable pub create_api_key : List ℕ → Bytes → ℤ → RepoM ApiKeyInfo
  create_api_key drawn name rate_limit = do
    conn ← take
    elim conn [
      | none ↦ lift fault
      | some c ↦ create_with c (generate_api_key drawn) name rate_limit
    ]

  unfoldable pub list_stored : ℕ → RepoM (List ApiKeyInfo)
  list_stored conn = do
    stored ← fetch conn
    elim stored [
      | none ↦ giving conn []
      | some rows ↦ (do keys ← lift (read_rows rows); giving conn keys)
    ]

  unfoldable pub list_with : ℕ → RepoM (List ApiKeyInfo)
  list_with conn = do
    done ← run_query conn list_sql
    elim done [ true ↦ list_stored conn | false ↦ giving conn [] ]

  unfoldable pub list_api_keys : RepoM (List ApiKeyInfo)
  list_api_keys = do conn ← take; elim conn [ none ↦ lift fault | some c ↦ list_with c ]

  unfoldable pub disable_with : ℕ → ℤ → RepoM Bool
  disable_with conn id = do
    done ← run_query conn (disable_sql id)
    elim done [
      | true ↦ (do affected ← ask (λ db. ltb 0 (affected_rows conn db)); giving conn affected)
      | false ↦ giving conn false
    ]

  unfoldable pub disable_api_key : ℤ → RepoM Bool
  disable_api_key id = do conn ← take; elim conn [ none ↦ lift fault | some c ↦ disable_with c id ]
