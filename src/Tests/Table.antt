-- ===== src/Tests/Table.antt =====
-- A server that answers the statements of one key, and a history of calls.
use ai_switch.Base.{
  ℕ, suc, ◌^◌, ◌<◌, ◌≡◌, refl, sym, subst, ap, Bool, true, false, List, [], ◌∷◌, none, some, Bytes,
  bytes, str_eq, length, arith, if◌then◌else◌,
}
use ai_switch.Base.Threads.{update, update_self}
use ai_switch.Base.Int.{ℤ, pos}
use ai_switch.Base.Numbers.{to_string}
use ai_switch.Base.Result.{ok}
use ai_switch.Database.Mysql.{Mysql, Row}
use ai_switch.Database.Repository.{
  Repository, ApiKeyInfo, no_info, not_found, select_sql, insert_sql, list_sql, disable_sql,
  generate_api_key,
}
use ai_switch.Database.Repository.Created.{found_result}
use ai_switch.Database.Repository.History.{Operation, find, create, list, disable}
use ai_switch.Database.Repository.Table.{
  KeyTable, found, made, listed, disabled, find_key, insert, changed, disable_all, perform,
  perform_all,
}
use ai_switch.Database.Repository.Table.Rows.{at_most_one, stored_rows}
use ai_switch.Database.Repository.Table.Server.{
  IsServer, IsAnswered, IsInserted, IsRefused, IsUpdated, Fits, FitsNew, AllFit,
}
use ai_switch.Database.Repository.Table.Refined.{answer_all, answer_all-perform_all}
use ai_switch.Tests.Issue.{drawn, key, info}

pub record TableDb : Type 0 where
  pub table : KeyTable
  -- What each connection has.
  pub rows : ℕ → List Row
  pub last_id : ℕ → ℕ
  pub affected : ℕ → ℕ

abbrev pub stored : TableDb → KeyTable
stored db = db.table

abbrev insert_two : ℕ → TableDb → Bool × TableDb
insert_two c db = elim (find_key str_eq key db.table.keys) [
  | none ↦ (
    true,
    record db {
      table = (insert str_eq key (bytes "two") (pos 5) db.table).1;
      last_id = update db.last_id c db.table.next_id;
    },
  )
  | some known ↦ (false, record db { table = record db.table { next_id = suc db.table.next_id } })
]

abbrev disable_seven : ℕ → TableDb → Bool × TableDb
disable_seven c db = (
  true,
  record db {
    table = record db.table { keys = disable_all (pos 7) db.table.keys };
    affected = update db.affected c (changed (pos 7) db.table.keys);
  },
)

abbrev select_rows : ℕ → List Row → TableDb → Bool × TableDb
select_rows c rows db = (true, record db { rows = update db.rows c rows })

abbrev pub run_sql : ℕ → Bytes → TableDb → Bool × TableDb
run_sql c sql db =
    if str_eq sql (select_sql key)
    then select_rows c (at_most_one (find_key str_eq key db.table.keys)) db
    else if str_eq sql (insert_sql key (bytes "two") (pos 5))
    then insert_two c db
    else if str_eq sql list_sql
    then select_rows c (stored_rows db.table.keys) db
    else if str_eq sql (disable_sql (pos 7))
    then disable_seven c db
    else (false, db)

abbrev pub table_server : Mysql
table_server = record {
  Db = TableDb;
  init = λ db. (some 1, db);
  real_connect = λ c db. (true, db);
  set_character_set = λ c s db. (true, db);
  close = λ c db. db;
  escape = λ c s. s;
  query = run_sql;
  store_result = λ c db. (some (db.rows c), db);
  insert_id = λ c db. db.last_id c;
  affected_rows = λ c db. db.affected c;
}

unfoldable pub Covered : Operation → Type 0
Covered (find k) = k ≡ key
Covered (create d n l) = ◌≡◌ {A = List ℕ × Bytes × ℤ} (d, n, l) (drawn, bytes "two", pos 5)
Covered list = Unit
Covered (disable i) = i ≡ pos 7

select-IsAnswered :
    (c : ℕ) (db : TableDb)
    → IsAnswered table_server str_eq stored c
        (select_sql key)
        db
        (at_most_one (find_key str_eq key db.table.keys))
unfolding str_eq
select-IsAnswered c db = record {
  asked = refl;
  stored = ap some (update_self db.rows c _);
  kept = refl;
}

list-IsAnswered :
    (c : ℕ) (db : TableDb)
    → IsAnswered table_server str_eq stored c list_sql db (stored_rows db.table.keys)
unfolding str_eq
list-IsAnswered c db = record {
  asked = refl;
  stored = ap some (update_self db.rows c _);
  kept = refl;
}

disable-IsUpdated :
    (c : ℕ) (db : TableDb) → IsUpdated table_server str_eq stored c (pos 7) (disable_sql (pos 7)) db
unfolding str_eq to_string
disable-IsUpdated c db = record {
  asked = refl;
  affected = update_self db.affected c _;
  keys = refl;
  next_id = refl;
}

insert-IsInserted :
    (c : ℕ) (db : TableDb)
    → find_key str_eq key db.table.keys ≡ none
    → IsInserted table_server str_eq stored c key
        (bytes "two")
        (pos 5)
        (insert_sql key (bytes "two") (pos 5))
        db
unfolding str_eq to_string
insert-IsInserted c db fresh = record {
  asked = ground (arith, fresh);
  number = ground (arith, fresh);
  keys = ground (arith, fresh);
  next_id = ground (arith, fresh);
}

insert-IsRefused :
    (c : ℕ) (db : TableDb) (known : ApiKeyInfo)
    → find_key str_eq key db.table.keys ≡ some known
    → IsRefused table_server str_eq stored c (insert_sql key (bytes "two") (pos 5)) db
unfolding str_eq to_string
insert-IsRefused c db known there = record {
  asked = ground (arith, there);
  keys = ground (arith, there);
  next_id = ground (arith, there);
}

inserts-Covered :
    (c : ℕ) (d : List ℕ) (n : Bytes) (l : ℤ) (db : TableDb)
    → Covered (create d n l)
    → find_key str_eq (generate_api_key d) db.table.keys ≡ none
    → IsInserted table_server str_eq stored c
        (generate_api_key d)
        n
        l
        (insert_sql (generate_api_key d) n l)
        db
unfolding Covered generate_api_key
inserts-Covered c d n l db e =
    subst
      (λ p.
        find_key str_eq (generate_api_key p.0) db.table.keys ≡ none
        → IsInserted table_server str_eq stored c (generate_api_key p.0) p.1 p.2
            (insert_sql (generate_api_key p.0) p.1 p.2) db)
      (sym e) (insert-IsInserted c db)

refuses-Covered :
    (c : ℕ) (d : List ℕ) (n : Bytes) (l : ℤ) (db : TableDb) (known : ApiKeyInfo)
    → Covered (create d n l)
    → find_key str_eq (generate_api_key d) db.table.keys ≡ some known
    → IsRefused table_server str_eq stored c (insert_sql (generate_api_key d) n l) db
unfolding Covered generate_api_key
refuses-Covered c d n l db known e =
    subst
      (λ p.
        find_key str_eq (generate_api_key p.0) db.table.keys ≡ some known
        → IsRefused table_server str_eq stored c (insert_sql (generate_api_key p.0) p.1 p.2) db)
      (sym e) (insert-IsRefused c db known)

pub table_server-IsServer : IsServer table_server str_eq stored Covered
unfolding Covered
table_server-IsServer = record {
  selects = λ c k db e.
      subst
        (λ x.
          IsAnswered table_server str_eq stored c (select_sql x) db
            (at_most_one (find_key str_eq x db.table.keys)))
        (sym e) (select-IsAnswered c db);
  inserts = inserts-Covered;
  refuses = refuses-Covered;
  lists = λ c db u. list-IsAnswered c db;
  updates = λ c id db e.
      subst (λ x. IsUpdated table_server str_eq stored c x (disable_sql x) db) (sym e)
        (disable-IsUpdated c db);
}

abbrev history : List Operation
history =
    create drawn (bytes "two") (pos 5)
    ∷ find key
    ∷ disable (pos 7)
    ∷ disable (pos 7)
    ∷ find key
    ∷ create drawn (bytes "two") (pos 5)
    ∷ list
    ∷ []

abbrev no_keys : KeyTable
no_keys = record { keys = []; next_id = 7 }

abbrev pub new_repo : Repository TableDb
new_repo = record {
  pool = record { idle = 3 ∷ 4 ∷ [] };
  db = record { table = no_keys; rows = λ c. []; last_id = λ c. 0; affected = λ c. 0 };
}

pub create_fits :
    (t : KeyTable)
    → t.next_id < 2 ^ 63
    → FitsNew table_server str_eq stored drawn (bytes "two") (pos 5) t
unfolding generate_api_key
create_fits t h = record {
  key_fits = λ c. omega arith;
  name_fits = λ c. omega arith;
  limit_least = omega arith;
  limit_most = omega arith;
  id_most = h;
}

pub key_fits : (c : ℕ) → length (table_server.escape c key) < 256
key_fits c = omega arith

history_fits : AllFit table_server str_eq stored Covered history no_keys
unfolding AllFit Fits Covered perform str_eq generate_api_key
history_fits = (
  refl,
  create_fits _ (omega arith),
  (
    refl,
    key_fits,
    (refl, tt, (refl, tt, (refl, key_fits, (refl, create_fits _ (omega arith), (tt, tt, tt))))),
  ),
)

abbrev disabled_info : ApiKeyInfo
disabled_info = record info { enabled = false }

answer_all-perform_all_example :
    ((answer_all table_server history new_repo).0
      ≡ ok (
          made info
          ∷ found (found_result info)
          ∷ disabled true
          ∷ disabled false
          ∷ found not_found
          ∷ made no_info
          ∷ listed (disabled_info ∷ [])
          ∷ []))
    × (stored (answer_all table_server history new_repo).1.db
        ≡ record { keys = disabled_info ∷ []; next_id = 9 })
unfolding perform_all perform str_eq generate_api_key
answer_all-perform_all_example =
    answer_all-perform_all table_server str_eq stored table_server-IsServer history new_repo
      (omega arith) tt history_fits
