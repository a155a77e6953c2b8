-- ===== src/Tests/Toy.antt =====
-- Instances of the three parameters: values that are texts, a server that is the list of its rows, and
-- a network on which every call succeeds.
use ai_switch.Base.{
  true, false, List, [], ◌∷◌, ◌++◌, Option, none, some, Bytes, bytes, is_empty, find, drop,
  at_front,
}
use ai_switch.Base.Int.{pos}
use ai_switch.Base.Result.{Result, ok, throw, parse_error}
use ai_switch.Json.{JsonLib}
use ai_switch.Http.{Request}
use ai_switch.Database.Mysql.{Mysql, Row}
use ai_switch.Database.Repository.{Repository}
use ai_switch.RateLimiter.{TokenBucket}
use ai_switch.Adapter.{Adapter, deepseek_adapter}
use ai_switch.Adapter.Curl.{Curl}
use ai_switch.Gateway.{World}

abbrev parsed : Bytes → Result Bytes
parsed [] = throw (parse_error (bytes "empty"))
parsed (c ∷ s) = ok (c ∷ s)

abbrev fields : List (Bytes × Bytes) → Bytes
fields [] = []
fields ((k, v) ∷ r) = k ++ v ++ fields r

abbrev joined : List Bytes → Bytes
joined [] = []
joined (x ∷ xs) = x ++ joined xs

-- A body that asks for a stream is `true` and the name of the model.
abbrev pub toy_json : JsonLib
toy_json = record {
  Json = Bytes;
  Double = Bytes;
  literal = λ s. s;
  parse = parsed;
  dump = λ s. ok s;
  object = fields;
  array = joined;
  string = λ s. s;
  int = λ n. [];
  bool = λ b. [];
  double = λ s. s;
  value_string = λ j k d. ok (drop 4 j);
  value_bool = λ j k d. ok (at_front (find (bytes "true") j));
  value_int = λ j k d. ok d;
  value_int64 = λ j k d. ok d;
  value_uint16 = λ j k d. ok d;
  value_uint = λ j k d. ok d;
  value_double = λ j k d. ok d;
  contains = λ j k. true;
  is_array = λ j. false;
  empty = λ j. is_empty j;
  member = λ j k. ok j;
  const_member = λ j k. ok j;
  element = λ j n. ok j;
  elements = λ j. [];
  get_string = λ j. ok j;
}

abbrev pub toy_mysql : Mysql
toy_mysql = record {
  Db = List Row;
  init = λ db. (some 0, db);
  real_connect = λ c db. (true, db);
  set_character_set = λ c s db. (true, db);
  close = λ c db. db;
  escape = λ c s. s;
  query = λ c s db. (true, db);
  store_result = λ c db. (some db, db);
  insert_id = λ c db. 7;
  affected_rows = λ c db. 1;
}

abbrev pub toy_curl : Curl
toy_curl = record {
  Net = Unit;
  init = λ n. (true, n);
  perform = λ t n. (
    record { error = none; write_error = false; http_code = 200; pieces = bytes "an answer" ∷ [] },
    n,
  );
}

abbrev pub key_row : Row
key_row = record {
  id = some (bytes "1");
  api_key = some (bytes "sk_1");
  name = some (bytes "one");
  rate_limit = some (bytes "60");
  enabled = some (bytes "1");
}

abbrev pub repo : Repository (List Row)
repo = record { pool = record { idle = 3 ∷ 4 ∷ [] }; db = key_row ∷ [] }

abbrev pub bucket : TokenBucket
bucket = record { tokens = pos 2; capacity = pos 2; refill_rate = pos 1; last_refill = 0 }

abbrev pub world : World (List Row) Unit
world = record { repo = repo; bucket = bucket; net = tt }

abbrev pub deepseek_ai : Adapter
deepseek_ai = record {
  provider = ai_switch.Adapter.deepseek;
  api_key = bytes "k";
  base_url = bytes "u";
  default_model = bytes "deepseek-v4-flash";
  model_prefix = bytes "deepseek";
}

abbrev pub request : Bytes → Option Bytes → Bytes → Request
request target auth body = record {
  method = bytes "POST";
  target = target;
  authorization = auth;
  version = 11;
  keep_alive = true;
  body = body;
}

abbrev pub stream_body : Bytes
stream_body = bytes "truedeepseek-chat"
