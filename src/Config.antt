-- ===== src/Config.antt =====
-- src/util/config.h and src/util/config.cpp. `from_file` fills a configuration field by field, so that
-- what it has read before an exception stays.
pub mod Laws
use ai_switch.Base.{ℕ, Bool, true, false, List, [], Option, none, some, Bytes, bytes}
use ai_switch.Base.Int.{ℤ, pos}
use ai_switch.Base.Result.{
  Exception, parse_error, type_error, runtime_error, invalid_argument, out_of_range,
  bad_optional_access, Result, ok, throw, fault, Eff, return, lift, continue, ◌>>=◌, ◌>>◌,
}
use ai_switch.Json.{JsonLib}

pub record AppConfig : Type 0 where
  pub host : Bytes
  pub port : ℕ
  pub thread_count : ℤ
  pub thread_pool_size : ℤ
  pub db_host : Bytes
  pub db_port : ℕ
  pub db_user : Bytes
  pub db_password : Bytes
  pub db_name : Bytes
  pub db_pool_size : ℤ
  pub rate_limit_capacity : ℤ
  pub rate_limit_refill_rate : ℤ
  pub deepseek_api_key : Bytes
  pub deepseek_base_url : Bytes
  pub openai_api_key : Bytes
  pub openai_base_url : Bytes
  pub anthropic_api_key : Bytes
  pub anthropic_base_url : Bytes
  pub admin_master_key : Bytes
  pub loaded : Bool

-- The header leaves the literal of `anthropic_base_url` open; this is the address that it begins.
abbrev pub defaults : AppConfig
defaults = record {
  host = bytes "0.0.0.0";
  port = 8080;
  thread_count = pos 4;
  thread_pool_size = pos 8;
  db_host = bytes "127.0.0.1";
  db_port = 3306;
  db_user = bytes "root";
  db_password = [];
  db_name = bytes "ai_switch";
  db_pool_size = pos 4;
  rate_limit_capacity = pos 10;
  rate_limit_refill_rate = pos 5;
  deepseek_api_key = [];
  deepseek_base_url = bytes "https://api.deepseek.com/v1";
  openai_api_key = [];
  openai_base_url = bytes "https://api.openai.com/v1";
  anthropic_api_key = [];
  anthropic_base_url = bytes "https://api.anthropic.com/v1";
  admin_master_key = bytes "admin-master-key-001";
  loaded = false;
}

-- `cfg.f = section.value(…, cfg.f)`
unfoldable pub assign {ℓ} :
    {A : Type ℓ} → (AppConfig → Result A) → (A → AppConfig → AppConfig) → Eff AppConfig (Unit {0})
assign read set cfg = continue (read cfg) cfg (λ a c. (ok tt, set a c))

-- The `catch` of a parse error, for a run of the block with what it has read.
abbrev pub catch_parse_error : Result (Unit {0}) × AppConfig → Result AppConfig
catch_parse_error (ok _, cfg) = ok (record cfg { loaded = true })
catch_parse_error (throw (parse_error m), cfg) = ok cfg
catch_parse_error (throw (type_error m), cfg) = throw (type_error m)
catch_parse_error (throw (runtime_error m), cfg) = throw (runtime_error m)
catch_parse_error (throw (invalid_argument m), cfg) = throw (invalid_argument m)
catch_parse_error (throw (out_of_range m), cfg) = throw (out_of_range m)
catch_parse_error (throw (bad_optional_access m), cfg) = throw (bad_optional_access m)
catch_parse_error (fault, cfg) = fault

module _ (json : JsonLib) where
  open json use {
    Json, parse, contains, member, value_string, value_int, value_int64, value_uint16, value_uint,
  }

  abbrev pub Reader : Type 0
  Reader = Eff AppConfig (Unit {0})

  -- `if (j.contains(key)) { const auto& s = j[key]; … }`
  unfoldable pub in_section : Json → Bytes → (Json → Reader) → Reader
  in_section j key read = elim (contains j key) [
    | true ↦ (do s ← lift (member j key); read s)
    | false ↦ return tt
  ]

  unfoldable pub read_server : Json → Reader
  read_server srv = do
    assign (λ c. value_string srv (bytes "host") c.host) (λ v c. record c { host = v })
    assign (λ c. value_uint16 srv (bytes "port") c.port) (λ v c. record c { port = v })
    assign (λ c. value_int srv (bytes "thread_count") c.thread_count)
        (λ v c. record c { thread_count = v })
    assign (λ c. value_int srv (bytes "thread_pool_size") c.thread_pool_size)
        (λ v c. record c { thread_pool_size = v })

  unfoldable pub read_database : Json → Reader
  read_database db = do
    assign (λ c. value_string db (bytes "host") c.db_host) (λ v c. record c { db_host = v })
    assign (λ c. value_uint db (bytes "port") c.db_port) (λ v c. record c { db_port = v })
    assign (λ c. value_string db (bytes "user") c.db_user) (λ v c. record c { db_user = v })
    assign (λ c. value_string db (bytes "password") c.db_password)
        (λ v c. record c { db_password = v })
    assign (λ c. value_string db (bytes "db") c.db_name) (λ v c. record c { db_name = v })
    assign (λ c. value_int db (bytes "pool_size") c.db_pool_size)
        (λ v c. record c { db_pool_size = v })

  unfoldable pub read_rate_limiter : Json → Reader
  read_rate_limiter rl = do
    assign (λ c. value_int64 rl (bytes "default_capacity") c.rate_limit_capacity)
        (λ v c. record c { rate_limit_capacity = v })
    assign (λ c. value_int64 rl (bytes "default_refill_rate") c.rate_limit_refill_rate)
        (λ v c. record c { rate_limit_refill_rate = v })

  unfoldable pub read_deepseek : Json → Reader
  read_deepseek ds = do
    assign (λ c. value_string ds (bytes "api_key") c.deepseek_api_key)
        (λ v c. record c { deepseek_api_key = v })
    assign (λ c. value_string ds (bytes "base_url") c.deepseek_base_url)
        (λ v c. record c { deepseek_base_url = v })

  unfoldable pub read_openai : Json → Reader
  read_openai oa = do
    assign (λ c. value_string oa (bytes "api_key") c.openai_api_key)
        (λ v c. record c { openai_api_key = v })
    assign (λ c. value_string oa (bytes "base_url") c.openai_base_url)
        (λ v c. record c { openai_base_url = v })

  unfoldable pub read_anthropic : Json → Reader
  read_anthropic ac = do
    assign (λ c. value_string ac (bytes "api_key") c.anthropic_api_key)
        (λ v c. record c { anthropic_api_key = v })
    assign (λ c. value_string ac (bytes "base_url") c.anthropic_base_url)
        (λ v c. record c { anthropic_base_url = v })

  unfoldable pub read_models : Json → Reader
  read_models models = do
    in_section models (bytes "deepseek") read_deepseek
    in_section models (bytes "openai") read_openai
    in_section models (bytes "anthropic") read_anthropic

  unfoldable pub read_admin : Json → Reader
  read_admin admin =
      assign (λ c. value_string admin (bytes "master_key") c.admin_master_key)
        (λ v c. record c { admin_master_key = v })

  unfoldable pub read_root : Json → Reader
  read_root root = do
    in_section root (bytes "server") read_server
    in_section root (bytes "database") read_database
    in_section root (bytes "rate_limiter") read_rate_limiter
    in_section root (bytes "ai_models") read_models
    in_section root (bytes "admin") read_admin

  -- The `try` block.
  unfoldable pub read_text : Bytes → Reader
  read_text text = do root ← lift (parse text); read_root root

  -- `none` is a file that does not open.
  unfoldable pub from_file : Option Bytes → Result AppConfig
  from_file none = ok defaults
  from_file (some text) = catch_parse_error (read_text text defaults)
