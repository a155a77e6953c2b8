-- ===== src/Database/Mysql.antt =====
-- The MySQL C API, which this repository does not hold: a parameter. `Db` is the state of the server
-- and of all connections, and a connection is the number that stands for its pointer.
use ai_switch.Base.{ℕ, Bool, List, Option, Bytes}

-- A row of the five columns that the queries select; `none` is NULL.
pub record Row : Type 0 where
  pub id : Option Bytes
  pub api_key : Option Bytes
  pub name : Option Bytes
  pub rate_limit : Option Bytes
  pub enabled : Option Bytes

pub record Mysql : Type 1 where
  pub Db : Type 0
  -- `mysql_init(nullptr)`, `none` for a null pointer.
  pub init : Db → Option ℕ × Db
  -- Whether `mysql_real_connect` and `mysql_set_character_set` succeed.
  pub real_connect : ℕ → Db → Bool × Db
  pub set_character_set : ℕ → Bytes → Db → Bool × Db
  pub close : ℕ → Db → Db
  pub escape : ℕ → Bytes → Bytes
  -- Whether `mysql_query` returns 0.
  pub query : ℕ → Bytes → Db → Bool × Db
  pub store_result : ℕ → Db → Option (List Row) × Db
  pub insert_id : ℕ → Db → ℕ
  pub affected_rows : ℕ → Db → ℕ
