-- ===== src/Database/ConnectionPool.antt =====
-- src/db/connection_pool.h and src/db/connection_pool.cpp, as one thread uses the pool: no other
-- thread returns a connection while `borrow` waits. The host, the user, the password, the database and the
-- port, which the code hands on to `mysql_real_connect` as they are, are left out.
pub mod Threads
pub mod Notify
use ai_switch.Base.{ℕ, zero, suc, List, [], ◌∷◌, ◌++◌, Option, none, some, bytes, if◌then◌else◌}
use ai_switch.Base.Result.{Result, ok, throw, Exception, runtime_error}
use ai_switch.Database.Mysql.{Mysql}

-- The idle connections, first in first out.
pub record ConnectionPool : Type 0 where
  pub idle : List ℕ

-- `none` is the null pointer, after a wait of 5 seconds.
unfoldable pub borrow : ConnectionPool → Option ℕ × ConnectionPool
borrow p = elim p.idle [ [] ↦ (none, p) | conn ∷ rest ↦ (some conn, record { idle = rest }) ]

unfoldable pub return_connection : ℕ → ConnectionPool → ConnectionPool
return_connection conn p = record { idle = p.idle ++ conn ∷ [] }

module _ (M : Mysql) where
  open M use {Db, init, real_connect, set_character_set, close}

  -- The steps after `mysql_init`; a failure to set the character set is logged and let pass.
  unfoldable pub connect : ℕ → Db → Option ℕ × Db
  connect conn db =
      let (connected, db') = real_connect conn db in
      if connected
      then (some conn, (set_character_set conn (bytes "utf8mb4") db').1)
      else (none, close conn db')

  unfoldable pub create_connection : Db → Option ℕ × Db
  unfolding connect
  create_connection db =
      let (made, db') = init db in elim made [ none ↦ (none, db') | some conn ↦ connect conn db' ]

  abbrev pub push_made : Option ℕ → ConnectionPool → ConnectionPool
  push_made none p = p
  push_made (some conn) p = return_connection conn p

  -- The loop of the constructor, on the rounds left.
  unfoldable pub fill : ℕ → ConnectionPool → Db → ConnectionPool × Db
  fill zero p db = (p, db)
  fill (suc rounds) p db =
      let (made, db') = create_connection db in fill rounds (push_made made p) db'

  abbrev no_connection : Exception
  no_connection = runtime_error (bytes "无法连接到 MySQL, 请检查数据库配置")

  unfoldable pub new_pool : ℕ → Db → Result ConnectionPool × Db
  new_pool pool_size db =
      let (p, db') = fill pool_size (record { idle = [] }) db in
      elim p.idle [ [] ↦ (throw no_connection, db') | conn ∷ rest ↦ (ok p, db') ]

  -- The destructor closes every idle connection.
  unfoldable pub close_all : List ℕ → Db → Db
  close_all [] db = db
  close_all (conn ∷ rest) db = close_all rest (close conn db)
