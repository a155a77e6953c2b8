-- ===== src/Gateway/Disabled.antt =====
-- A request with a key that was disabled, from the session to its answer.
use ai_switch.Base.{
  ℕ, ◌<◌, ◌≡◌, ◌≢◌, refl, ◌∙◌, Bool, true, false, List, [], ◌∷◌, some, Bytes, bytes, length, All,
  arith,
}
use ai_switch.Base.Result.{ok}
use ai_switch.Json.{JsonLib}
use ai_switch.Http.{Request, Response}
use ai_switch.Router.{Routes, make_error_response, error_body, json_body}
use ai_switch.Database.Mysql.{Mysql}
use ai_switch.Database.Repository.{ApiKeyInfo, Repository}
use ai_switch.Database.Repository.Created.{IsInRange}
use ai_switch.Database.Repository.History.{Operation, find, disable}
use ai_switch.Database.Repository.Table.{KeyTable, find_key}
use ai_switch.Database.Repository.Table.Server.{IsServer, AllFit}
use ai_switch.Database.Repository.Table.Refined.{answer_all}
use ai_switch.Middleware.{Context, new_context, process, log, reject}
use ai_switch.Middleware.Auth.{authenticate, extract_bearer_token, is_public}
use ai_switch.Middleware.Auth.Revoked.{authenticate-disable_api_key}
use ai_switch.Middleware.RateLimit.{limit}
use ai_switch.Adapter.{Adapter}
use ai_switch.Adapter.Curl.{Curl}
use ai_switch.Session.{Session, write, handle_request, after_chain}
use ai_switch.Gateway.{World, chain, serve}

module _ (M : Mysql) (C : Curl) (json : JsonLib) where
  open M use {Db, escape}
  open C use {Net}
  open json use {dump}

  -- A request that the first link stops is answered by it, and the bucket is not asked.
  serve_rejected :
      (routes : Routes (World Db Net)) (adapters : List Adapter) (now now2 : ℕ) (s : Session)
      (req : Request) (w : World Db Net) (ctx : Context) (repo' : Repository Db) (res : Response)
      → authenticate M json (new_context req) w.repo ≡ (ok ctx, repo')
      → ctx.terminated ≡ true
      → ctx.response ≡ some res
      → serve M C json routes adapters now now2 s req w
        ≡ (ok (s, write res), record w { repo = repo' })
  unfolding serve chain process log limit handle_request after_chain new_context
  serve_rejected routes adapters now now2 s req w ctx repo' res e stopped answered =
      ground (arith, e, stopped, answered)

  reject-dump :
      (status : ℕ) (code message : Bytes) (ctx : Context) (text : Bytes)
      → dump (error_body json code message) ≡ ok text
      → reject json status code message ctx
        ≡ ok (record ctx {
          response = some (json_body status ctx.request.version ctx.request.keep_alive text);
          terminated = true;
        })
  unfolding reject make_error_response
  reject-dump status code message ctx text e = ground (arith, e)

  -- A key that was disabled opens nothing any more. The server does what the statements say of the
  -- operations in use, a connection is idle, the numbers in the table are in the range of their types, each
  -- text and number of the history fits its buffer and its type, and the key is not empty and fits its
  -- buffer. Then, once the number of its row was disabled, and after any further history of calls of the
  -- repository, every request with this key, for a path that is not public, is answered with status 401, if
  -- the error can be written as JSON, and neither the bucket nor the network nor the session changes.
  pub serve-disable_api_key :
      (same : Bytes → Bytes → Bool) (table : Db → KeyTable) {Covers : Operation → Type 0}
      (server : IsServer M same table Covers) (ops : List Operation) (key : Bytes)
      (info : ApiKeyInfo) (routes : Routes (World Db Net)) (adapters : List Adapter) (now now2 : ℕ)
      (s : Session) (req : Request) (w : World Db Net) (text : Bytes)
      → 0 < length w.repo.pool.idle
      → All IsInRange (table w.repo.db).keys
      → find_key same key (table w.repo.db).keys ≡ some info
      → AllFit M same table Covers (disable info.id ∷ ops) (table w.repo.db)
      → Covers (find key)
      → ((c : ℕ) → length (escape c key) < 256)
      → key ≢ []
      → extract_bearer_token req ≡ key
      → is_public req.target ≡ false
      → dump (error_body json (bytes "auth_failed") (bytes "API Key 无效或已被禁用")) ≡ ok text
      → (repo' : Repository Db) × (serve M C json routes adapters now now2 s req
            (record w { repo = (answer_all M (disable info.id ∷ ops) w.repo).1 })
          ≡ (
            ok (s, write (json_body 401 req.version req.keep_alive text)),
            record w { repo = repo' },
          ))
  unfolding new_context
  serve-disable_api_key same table server ops key info routes adapters now now2 s req w text idle
        range there f c fits some_key token guarded written =
      let r = (answer_all M (disable info.id ∷ ops) w.repo).1 in
      let refused =
        authenticate-disable_api_key M json same table server ops w.repo key info (new_context req)
          idle range there f c fits some_key token guarded in
      let said =
        reject-dump 401 (bytes "auth_failed") (bytes "API Key 无效或已被禁用") (new_context req) text
          written in
      (
        (authenticate M json (new_context req) r).1,
        serve_rejected routes adapters now now2 s req (record w { repo = r })
            (record (new_context req) {
              response = some (json_body 401 req.version req.keep_alive text);
              terminated = true;
            })
            (authenticate M json (new_context req) r).1
            (json_body 401 req.version req.keep_alive text)
            (λ i. ((refused ∙ said) i, (authenticate M json (new_context req) r).1)) refl refl,
      )
