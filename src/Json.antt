-- ===== src/Json.antt =====
-- nlohmann::json, which the program calls and this repository does not hold: a parameter. What may
-- throw returns a `Result`.
use ai_switch.Base.{ℕ, Bool, List, Bytes}
use ai_switch.Base.Int.{ℤ}
use ai_switch.Base.Result.{Result}

pub record JsonLib : Type 1 where
  pub Json : Type 0
  pub Double : Type 0
  -- A floating-point literal of the source.
  pub literal : Bytes → Double
  pub parse : Bytes → Result Json
  pub dump : Json → Result Bytes
  pub object : List (Bytes × Json) → Json
  pub array : List Json → Json
  pub string : Bytes → Json
  pub int : ℤ → Json
  pub bool : Bool → Json
  pub double : Double → Json
  -- `value` at the type of its default.
  pub value_string : Json → Bytes → Bytes → Result Bytes
  pub value_bool : Json → Bytes → Bool → Result Bool
  pub value_int : Json → Bytes → ℤ → Result ℤ
  pub value_int64 : Json → Bytes → ℤ → Result ℤ
  pub value_uint16 : Json → Bytes → ℕ → Result ℕ
  pub value_uint : Json → Bytes → ℕ → Result ℕ
  pub value_double : Json → Bytes → Double → Result Double
  pub contains : Json → Bytes → Bool
  pub is_array : Json → Bool
  pub empty : Json → Bool
  -- `operator[]` with a key, on a value that may change and on a constant one, and with an index.
  pub member : Json → Bytes → Result Json
  pub const_member : Json → Bytes → Result Json
  pub element : Json → ℕ → Result Json
  -- What a `for` over the value goes through.
  pub elements : Json → List Json
  pub get_string : Json → Result Bytes
