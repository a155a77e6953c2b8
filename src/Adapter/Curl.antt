-- ===== src/Adapter/Curl.antt =====
-- libcurl, which the program calls and this repository does not hold: a parameter. `Net` is the state
-- of the network and of the providers behind it.
use ai_switch.Base.{ℕ, Bool, List, Option, Bytes}

-- The options of a POST that depend on the request.
pub record Transfer : Type 0 where
  pub url : Bytes
  pub headers : List Bytes
  pub body : Bytes

-- What a transfer gives: the text of its error, if any, the status, and the pieces of the body for
-- which the write callback was called.
pub record Outcome : Type 0 where
  pub error : Option Bytes
  -- Whether the error, if any, is `CURLE_WRITE_ERROR`.
  pub write_error : Bool
  pub http_code : ℕ
  pub pieces : List Bytes

pub record Curl : Type 1 where
  pub Net : Type 0
  -- `curl_easy_init`, `false` for a null pointer.
  pub init : Net → Bool × Net
  pub perform : Transfer → Net → Outcome × Net
