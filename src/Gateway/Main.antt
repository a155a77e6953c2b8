-- ===== src/Gateway/Main.antt =====
-- `main` of src/main.cpp: the arguments, the start of the parts and the exit code.
use ai_switch.Base.{
  ◌-◌, ◌^◌, ℕ, ◌≡◌, refl, ◌⊎◌, inl, inr, Bool, true, false, not, ◌&&◌, ◌||◌, List, [], ◌∷◌, Option,
  Bytes, bytes, str_eq, if◌then◌else◌, arith, Bool-cases,
}
use ai_switch.Base.Int.{ℤ, pos, negsuc, pos_part}
use ai_switch.Base.Result.{Result, ok, throw, fault, Result-cases}
use ai_switch.Json.{JsonLib}
use ai_switch.Database.Mysql.{Mysql}
use ai_switch.Database.ConnectionPool.{ConnectionPool, new_pool}
use ai_switch.Config.{AppConfig, from_file}
use ai_switch.Gateway.Start.{Environment, apply_environment}
use ai_switch.Server.{Asio, new_server}

pub data Arguments : Type 0 where
  help : Arguments
  options : (config_path : Bytes) (user_set_config : Bool) → Arguments

Arguments-cases :
    (a : Arguments) → (a ≡ help) ⊎ ((path : Bytes) × (set : Bool) × (a ≡ options path set))
Arguments-cases help = inl refl
Arguments-cases (options path set) = inr (path, set, refl)

abbrev is_help : Bytes → Bool
is_help arg = str_eq arg (bytes "--help") || str_eq arg (bytes "-h")

-- The loop over the arguments behind the name of the program.
unfoldable pub parse_args : List Bytes → Bytes → Bool → Arguments
parse_args [] path set = options path set
parse_args (arg ∷ []) path set = if is_help arg then help else options path set
parse_args (arg ∷ value ∷ rest) path set = elim (str_eq arg (bytes "--config")) [
  | true ↦ parse_args rest value true
  | false ↦ elim (is_help arg) [ true ↦ help | false ↦ parse_args (value ∷ rest) path set ]
]

-- How the program ends: with a code, by an exception that nothing catches, or undefined.
pub data Exit : Type 0 where
  code : ℕ → Exit
  terminated : Exit
  undefined : Exit

-- `static_cast<size_t>` of an `int`.
abbrev pub to_size : ℤ → ℕ
to_size (pos n) = n
to_size (negsuc n) = 2 ^ 64 - 1 - n

-- What the program runs on: the files, the environment, and whether that many threads can be made.
pub record System : Type 0 where
  pub read_file : Bytes → Option Bytes
  pub environment : Environment
  pub can_spawn : ℕ → Bool

module _ (M : Mysql) (A : Asio) (json : JsonLib) (sys : System) where
  -- The end of the program, with the database and the sockets after it.
  pub record Ended : Type 0 where
    pub exit : Exit
    pub db : M.Db
    pub net : A.Net

  abbrev ended : Exit → M.Db → A.Net → Ended
  ended e db net = record { exit = e; db = db; net = net }

  abbrev exit_of : Result (Unit {0}) → Exit
  exit_of (ok _) = code 0
  exit_of (throw e) = code 1
  exit_of fault = undefined

  -- Step 9; that `run` returns without an exception is taken for granted.
  unfoldable pub serve_until_stopped : AppConfig → M.Db → A.Net → Ended
  serve_until_stopped config db net =
      let (made, net') = new_server A config net in ended (exit_of made) db net'

  -- Steps 4 to 9, from the connection pool on.
  unfoldable pub with_pool : AppConfig → Result ConnectionPool × M.Db → A.Net → Ended
  with_pool config (throw e, db) net = ended (code 1) db net
  with_pool config (fault, db) net = ended undefined db net
  with_pool config (ok pool, db) net =
      if sys.can_spawn (to_size config.thread_pool_size)
      then serve_until_stopped config db net
      else ended terminated db net

  unfoldable pub with_config : AppConfig → M.Db → A.Net → Ended
  with_config config db net =
      with_pool (apply_environment sys.environment config)
        (new_pool M (pos_part config.db_pool_size) db) net

  unfoldable pub with_options : Bytes → Bool → M.Db → A.Net → Ended
  with_options path set db net = elim (from_file json (sys.read_file path)) [
    | throw e ↦ ended terminated db net
    | fault ↦ ended undefined db net
    | ok config ↦
        if set && not config.loaded then ended (code 1) db net else with_config config db net
  ]

  unfoldable pub main : List Bytes → M.Db → A.Net → Ended
  main args db net = elim (parse_args args (bytes "config.json") false) [
    | help ↦ ended (code 0) db net
    | options path set ↦ with_options path set db net
  ]

  -- What stands behind a server that has run.
  pub record IsServed (path : Bytes) (set : Bool) (db : M.Db) (net : A.Net) : Type 0 where
    pub config : AppConfig
    pub read : from_file json (sys.read_file path) ≡ ok config
    pub wanted : (set && not config.loaded) ≡ false
    pub pool : ConnectionPool
    pub connected : (new_pool M (pos_part config.db_pool_size) db).0 ≡ ok pool
    pub spawned : sys.can_spawn (to_size config.thread_pool_size) ≡ true
    pub listening : (new_server A (apply_environment sys.environment config) net).0 ≡ ok tt

  with_options_code :
      (path : Bytes) (set : Bool) (db : M.Db) (net : A.Net)
      → (with_options path set db net).exit ≡ code 0
      → IsServed path set db net
  unfolding with_options with_config with_pool serve_until_stopped apply_environment
  with_options_code path set db net e = elim (Result-cases (from_file json (sys.read_file path))) [
    | inl (config, f) ↦ elim (Bool-cases (set && not config.loaded)) [
      | inl missing ↦ absurd (ground arith)
      | inr wanted ↦ elim (Result-cases (new_pool M (pos_part config.db_pool_size) db).0) [
        | inl (pool, g) ↦ elim (Bool-cases (sys.can_spawn (to_size config.thread_pool_size))) [
          | inl spawned ↦
              elim (Result-cases (new_server A (apply_environment sys.environment config) net).0) [
                | inl (tt, listening) ↦ record {
                  config = config;
                  read = f;
                  wanted = wanted;
                  pool = pool;
                  connected = g;
                  spawned = spawned;
                  listening = listening;
                }
                | inr stopped ↦ absurd (ground arith)
              ]
          | inr none_made ↦ absurd (ground arith)
        ]
        | inr stopped ↦ absurd (ground arith)
      ]
    ]
    | inr stopped ↦ absurd (ground arith)
  ]

  -- The exit code is 0 only where help was asked for, or the server has run: then the configuration was
  -- read, and loaded where its path was given, a connection to the database was made, the threads
  -- of the pool were made, and the server got its address and its port.
  pub main-IsServed :
      (args : List Bytes) (db : M.Db) (net : A.Net)
      → (main args db net).exit ≡ code 0
      → (parse_args args (bytes "config.json") false ≡ help)
        ⊎ ((path : Bytes) × (set : Bool) × (parse_args args (bytes "config.json") false
              ≡ options path set)
            × IsServed path set db net)
  unfolding main
  main-IsServed args db net e =
      elim (Arguments-cases (parse_args args (bytes "config.json") false)) [
        | inl asked ↦ inl asked
        | inr (path, set, given) ↦
            inr (path, set, given, with_options_code path set db net (ground arith))
      ]
