-- ===== src/Middleware.antt =====
-- src/middleware: the chain of middleware.h and its three links. `S` is the state that they change.
pub mod Chain
pub mod Auth
pub mod RateLimit
use ai_switch.Base.{
  ℕ, Bool, true, false, List, [], ◌∷◌, ◌++◌, Option, none, some, Bytes, if◌then◌else◌,
}
use ai_switch.Base.Int.{ℤ, negsuc}
use ai_switch.Base.Result.{Eff, return, lift, ◌>>=◌, continue, and_then, Result, ok}
use ai_switch.Json.{JsonLib}
use ai_switch.Http.{Request, Response}
use ai_switch.Router.{make_error_response}

pub record Context : Type 0 where
  pub request : Request
  pub response : Option Response
  pub terminated : Bool
  pub api_key_id : ℤ

unfoldable pub new_context : Request → Context
new_context req = record {
  request = req;
  response = none;
  terminated = false;
  api_key_id = negsuc 0;
}

-- The virtual `process` of a link.
abbrev pub Middleware : Type 0 → Type 0
Middleware S = Context → Eff S Context

module _ {S : Type 0} where
  -- `middleware_chain::process`
  unfoldable pub process : List (Middleware S) → Middleware S
  process [] ctx = return ctx
  process (mw ∷ mws) ctx = do
    ctx' ← mw ctx
    if ctx'.terminated then return ctx' else process mws ctx'

  -- `middleware_chain::add`
  unfoldable pub add : Middleware S → List (Middleware S) → List (Middleware S)
  add mw mws = mws ++ mw ∷ []

  -- `log_middleware::process` only prints.
  unfoldable pub log : Middleware S
  log ctx = return ctx

-- Set the error response and stop the chain.
unfoldable pub reject : JsonLib → ℕ → Bytes → Bytes → Context → Result Context
reject json status code message ctx =
    and_then
      (make_error_response json status code message ctx.request.version ctx.request.keep_alive)
      λ res. ok (record ctx { response = some res; terminated = true })
