-- ===== src/Http.antt =====
-- The HTTP messages of Boost.Beast, as far as the program reads and writes them.
use ai_switch.Base.{ℕ, Bool, Option, Bytes}

-- `method` is `http::to_string(req.method())`, and `authorization` the first header of that name.
pub record Request : Type 0 where
  pub method : Bytes
  pub target : Bytes
  pub authorization : Option Bytes
  pub version : ℕ
  pub keep_alive : Bool
  pub body : Bytes

pub record Response : Type 0 where
  pub status : ℕ
  pub version : ℕ
  pub server : Bytes
  pub content_type : Bytes
  pub keep_alive : Bool
  pub body : Bytes
  pub content_length : ℕ
