-- ===== src/Gateway.antt =====
-- src/main.cpp: how the parts are put together.
pub mod Access
pub mod Handlers
pub mod Start
pub mod Relay
pub mod Main
pub mod Escape
pub mod Chat
pub mod Typed
pub mod Disabled
pub mod Admin
use ai_switch.Base.{ℕ, List, [], ◌∷◌}
use ai_switch.Base.Result.{Eff, zoom}
use ai_switch.Json.{JsonLib}
use ai_switch.Http.{Request}
use ai_switch.Router.{Routes}
use ai_switch.Database.Mysql.{Mysql}
use ai_switch.Database.Repository.{Repository}
use ai_switch.RateLimiter.{TokenBucket}
use ai_switch.Middleware.{Middleware, add, log}
use ai_switch.Middleware.Auth.{authenticate}
use ai_switch.Middleware.RateLimit.{limit}
use ai_switch.Adapter.{Adapter}
use ai_switch.Adapter.Curl.{Curl}
use ai_switch.Session.{Session, Action, handle_request}

-- What the middleware and the handlers share.
pub record World (Db Net : Type 0) : Type 0 where
  pub repo : Repository Db
  pub bucket : TokenBucket
  pub net : Net

module _ (M : Mysql) (C : Curl) (json : JsonLib) where
  abbrev pub with_repo {ℓ} : {A : Type ℓ} → Eff (Repository M.Db) A → Eff (World M.Db C.Net) A
  with_repo = zoom (λ w. w.repo) (λ r w. record w { repo = r })

  abbrev pub with_bucket {ℓ} : {A : Type ℓ} → Eff TokenBucket A → Eff (World M.Db C.Net) A
  with_bucket = zoom (λ w. w.bucket) (λ b w. record w { bucket = b })

  abbrev pub with_net {ℓ} : {A : Type ℓ} → Eff C.Net A → Eff (World M.Db C.Net) A
  with_net = zoom (λ w. w.net) (λ n w. record w { net = n })

  -- The chain, with the clock readings of the request's call of the bucket.
  unfoldable pub chain : ℕ → ℕ → List (Middleware (World M.Db C.Net))
  unfolding add
  chain now now2 = add log (
      add (λ ctx. with_bucket (limit json now now2 ctx))
        (add (λ ctx. with_repo (authenticate M json ctx)) []))

  -- One request on a connection.
  unfoldable pub serve :
      Routes (World M.Db C.Net)
      → List Adapter
      → ℕ
      → ℕ
      → Session
      → Request
      → Eff (World M.Db C.Net) (Session × Action json)
  unfolding chain
  serve routes adapters now now2 s req = handle_request json (chain now now2) routes adapters s req
