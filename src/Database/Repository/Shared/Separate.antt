-- ===== src/Database/Repository/Shared/Separate.antt =====
-- What the server has for a connection is left alone by the statements on the others.
use ai_switch.Base.{
  ℕ, ◌≡◌, ◌≢◌, refl, sym, ◌∙◌, Bool, true, false, Bytes, All, arith, Option-cases, inl, inr,
}
use ai_switch.Base.Result.{ok}
use ai_switch.Database.Mysql.{Mysql}
use ai_switch.Database.Repository.{generate_api_key}
use ai_switch.Database.Repository.Created.{IsInRange}
use ai_switch.Database.Repository.History.{Operation, find, create, list, disable}
use ai_switch.Database.Repository.Table.{KeyTable, find_key, perform}
use ai_switch.Database.Repository.Table.Rows.{first_row-find_key, read_rows-stored_rows}
use ai_switch.Database.Repository.Table.Server.{IsServer}
use ai_switch.Database.Repository.Table.Calls.{table_path}
use ai_switch.Database.Repository.Shared.{statement, read_back}

module _ (M : Mysql) where
  open M use {Db, query, store_result, insert_id, affected_rows}

  -- Two states of the server that are the same for a connection.
  pub record IsSame (c : ℕ) (db db' : Db) : Type 0 where
    pub rows : (store_result c db').0 ≡ (store_result c db).0
    pub number : insert_id c db' ≡ insert_id c db
    pub affected : affected_rows c db' ≡ affected_rows c db

  pub record IsSeparate (table : Db → KeyTable) : Type 0 where
    pub queries : (c c' : ℕ) (sql : Bytes) (db : Db) → c ≢ c' → IsSame c db (query c' sql db).1
    pub fetches : (c c' : ℕ) (db : Db) → c ≢ c' → IsSame c db (store_result c' db).1
    pub keeps : (c : ℕ) (db : Db) → table (store_result c db).1 ≡ table db

  read_back-IsSame :
      (op : Operation) (c : ℕ) (done : Bool) (db db' : Db)
      → IsSame c db db'
      → (read_back M op c done db').0 ≡ (read_back M op c done db).0
  unfolding read_back
  read_back-IsSame (find key) c true db db' v = ground (arith, v.rows)
  read_back-IsSame (find key) c false db db' v = refl
  read_back-IsSame (create drawn name limit) c true db db' v = ground (arith, v.number)
  read_back-IsSame (create drawn name limit) c false db db' v = refl
  read_back-IsSame list c true db db' v = ground (arith, v.rows)
  read_back-IsSame list c false db db' v = refl
  read_back-IsSame (disable id) c true db db' v = ground (arith, v.affected)
  read_back-IsSame (disable id) c false db db' v = refl

  module _ (table : Db → KeyTable) (separate : IsSeparate table) where
    pub table-read_back :
        (op : Operation) (c : ℕ) (done : Bool) (db : Db)
        → table (read_back M op c done db).1 ≡ table db
    unfolding read_back
    table-read_back (find key) c true db = separate.keeps c db
    table-read_back (find key) c false db = refl
    table-read_back (create drawn name limit) c true db = refl
    table-read_back (create drawn name limit) c false db = refl
    table-read_back list c true db = separate.keeps c db
    table-read_back list c false db = refl
    table-read_back (disable id) c true db = refl
    table-read_back (disable id) c false db = refl

    IsSame-refl : (c : ℕ) (db : Db) → IsSame c db db
    IsSame-refl c db = record { rows = refl; number = refl; affected = refl }

    IsSame-read_back :
        (op : Operation) (c c' : ℕ) (done : Bool) (db : Db)
        → c ≢ c'
        → IsSame c db (read_back M op c' done db).1
    unfolding read_back
    IsSame-read_back (find key) c c' true db h = separate.fetches c c' db h
    IsSame-read_back (find key) c c' false db h = IsSame-refl c db
    IsSame-read_back (create drawn name limit) c c' true db h = IsSame-refl c db
    IsSame-read_back (create drawn name limit) c c' false db h = IsSame-refl c db
    IsSame-read_back list c c' true db h = separate.fetches c c' db h
    IsSame-read_back list c c' false db h = IsSame-refl c db
    IsSame-read_back (disable id) c c' true db h = IsSame-refl c db
    IsSame-read_back (disable id) c c' false db h = IsSame-refl c db

    -- What a connection will read after another has read, or run a statement.
    pub read_back-read_back :
        (op op' : Operation) (c c' : ℕ) (done done' : Bool) (db : Db)
        → c ≢ c'
        → (read_back M op c done (read_back M op' c' done' db).1).0 ≡ (read_back M op c done db).0
    read_back-read_back op op' c c' done done' db h =
        read_back-IsSame op c done db (read_back M op' c' done' db).1
          (IsSame-read_back op' c c' done' db h)

    pub read_back-query :
        (op : Operation) (c c' : ℕ) (done : Bool) (sql : Bytes) (db : Db)
        → c ≢ c'
        → (read_back M op c done (query c' sql db).1).0 ≡ (read_back M op c done db).0
    read_back-query op c c' done sql db h =
        read_back-IsSame op c done db (query c' sql db).1 (separate.queries c c' sql db h)

    -- A statement, and what is read behind it, is what the table says.
    pub record IsAsked (same : Bytes → Bytes → Bool) (op : Operation) (c : ℕ) (db : Db)
        : Type 0 where
      pub read :
          (read_back M op c (query c (statement M c op) db).0 (query c (statement M c op) db).1).0
          ≡ ok (perform same op (table db)).0
      pub stored : table (query c (statement M c op) db).1 ≡ (perform same op (table db)).1

    pub statement-IsAsked :
        (same : Bytes → Bytes → Bool) {Covers : Operation → Type 0}
        (server : IsServer M same table Covers) (op : Operation) (c : ℕ) (db : Db)
        → Covers op
        → All IsInRange (table db).keys
        → IsAsked same op c db
    unfolding read_back statement perform
    statement-IsAsked same server (find key) c db u range =
        let a = server.selects c key db u in
        record {
          read =
              ground (arith, a.asked, a.stored, first_row-find_key same key (table db).keys range);
          stored = sym (separate.keeps c _) ∙ a.kept;
        }
    statement-IsAsked same server (create drawn name limit) c db u range =
        elim (Option-cases (find_key same (generate_api_key drawn) (table db).keys)) [
          | inl fresh ↦
              let a = server.inserts c drawn name limit db u fresh in
              record {
                read = ground (arith, a.asked, a.number, fresh);
                stored =
                    table_path _ (perform same (create drawn name limit) (table db)).1
                      (a.keys ∙ ground (arith, fresh)) (a.next_id ∙ ground (arith, fresh));
              }
          | inr (info, there) ↦
              let a = server.refuses c drawn name limit db info u there in
              record {
                read = ground (arith, a.asked, there);
                stored =
                    table_path _ (perform same (create drawn name limit) (table db)).1
                      (a.keys ∙ ground (arith, there)) (a.next_id ∙ ground (arith, there));
              }
        ]
    statement-IsAsked same server list c db u range =
        let a = server.lists c db u in
        record {
          read = ground (arith, a.asked, a.stored, read_rows-stored_rows (table db).keys range);
          stored = sym (separate.keeps c _) ∙ a.kept;
        }
    statement-IsAsked same server (disable id) c db u range =
        let a = server.updates c id db u in
        record {
          read = ground (arith, a.asked, a.affected);
          stored = table_path _ (perform same (disable id) (table db)).1 a.keys a.next_id;
        }
