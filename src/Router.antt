-- ===== src/Router.antt =====
-- src/server/router.h and src/server/router.cpp: the route table and the responses that every
-- component makes. `S` is the state that the handlers change.
pub mod Laws
use ai_switch.Base.{
  ℕ, Bool, List, [], ◌∷◌, ◌++◌, Option, none, some, Bytes, bytes, str_eq, length, if◌then◌else◌,
}
use ai_switch.Base.Result.{Result, ok, throw, and_then, Eff, lift}
use ai_switch.Json.{JsonLib}
use ai_switch.Http.{Request, Response}

abbrev pub Handler : Type 0 → Type 0
Handler S = Request → Eff S Response

-- `unordered_map` from keys to handlers; a key stands in it once.
abbrev pub Routes : Type 0 → Type 0
Routes S = List (Bytes × Handler S)

unfoldable pub make_key : Bytes → Bytes → Bytes
make_key method path = method ++ bytes " " ++ path

abbrev pub server_name : Bytes
server_name = bytes "AI-switch/1.0"

-- A response with the headers that all responses have, and the length of its body.
unfoldable pub json_body : ℕ → ℕ → Bool → Bytes → Response
json_body status version keep_alive body = record {
  status = status;
  version = version;
  server = server_name;
  content_type = bytes "application/json";
  keep_alive = keep_alive;
  body = body;
  content_length = length body;
}

unfoldable pub make_json_response : Bytes → ℕ → Bool → Response
make_json_response body version keep_alive = json_body 200 version keep_alive body

module _ (json : JsonLib) where
  open json use {Json, dump, object, string}

  unfoldable pub error_body : Bytes → Bytes → Json
  error_body code message = object (
      (bytes "error", object ((bytes "code", string code) ∷ (bytes "message", string message) ∷ []))
      ∷ [])

  unfoldable pub make_error_response : ℕ → Bytes → Bytes → ℕ → Bool → Result Response
  make_error_response status code message version keep_alive =
      and_then (dump (error_body code message))
        λ body. ok (json_body status version keep_alive body)

abbrev pub not_found_message : Bytes → Bytes
not_found_message target = bytes "请求的路径不存在: " ++ target

module _ {S : Type 0} where
  -- `routes_[key] = handler`
  unfoldable pub set_route : Bytes → Handler S → Routes S → Routes S
  set_route key h [] = (key, h) ∷ []
  set_route key h ((k, g) ∷ rs) = if str_eq k key then (k, h) ∷ rs else (k, g) ∷ set_route key h rs

  -- `routes_.find(key)`
  unfoldable pub find_route : Bytes → Routes S → Option (Handler S)
  find_route key [] = none
  find_route key ((k, g) ∷ rs) = if str_eq k key then some g else find_route key rs

  unfoldable pub add_route : Bytes → Bytes → Handler S → Routes S → Routes S
  add_route method path h routes = set_route (make_key method path) h routes

  -- What `dispatch` does with what it found.
  abbrev pub answer : JsonLib → Option (Handler S) → Request → Eff S Response
  answer json (some h) req = h req
  answer json none req = lift (
      make_error_response json 404 (bytes "not_found") (not_found_message req.target) req.version
        req.keep_alive)

  unfoldable pub dispatch : JsonLib → Routes S → Request → Eff S Response
  dispatch json routes req = answer json (find_route (make_key req.method req.target) routes) req
