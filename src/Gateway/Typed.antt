-- ===== src/Gateway/Typed.antt =====
-- A chat request whose body is JSON, but no object: `value` throws `type_error` at it, which the `try`
-- block of `session::handle_request` catches and the handler of src/main.cpp does not.
use ai_switch.Base.{ℕ, ◌≡◌, refl, Bytes, ap, ◌∙◌, Bool, true, false, List, some, bytes, ◌==◌, arith}
use ai_switch.Base.Int.{ℤ, pos}
use ai_switch.Base.Result.{Exception, ok, throw}
use ai_switch.Json.{JsonLib}
use ai_switch.Http.{Request}
use ai_switch.Router.{Routes, dispatch}
use ai_switch.Database.Mysql.{Mysql}
use ai_switch.Database.Repository.{Repository}
use ai_switch.RateLimiter.{TokenBucket, try_acquire}
use ai_switch.Middleware.{new_context, process, log}
use ai_switch.Middleware.Auth.{authenticate}
use ai_switch.Middleware.RateLimit.{limit}
use ai_switch.Adapter.{Adapter}
use ai_switch.Adapter.Curl.{Curl}
use ai_switch.Adapter.Factory.{count}
use ai_switch.Session.{Session, handle_request, after_chain, after_try, try_stream, route}
use ai_switch.Gateway.{World, chain, serve}
use ai_switch.Gateway.Handlers.{handle_chat, chat_with, all_routes}
use ai_switch.Gateway.Chat.{dispatch_chat}

module _ (M : Mysql) (C : Curl) (json : JsonLib) (adapters : List Adapter) (master_key : Bytes)
    (drawn : List ℕ) where
  open M use {Db}
  open C use {Net}
  open json use {Json, parse, value_bool, value_string}

  -- A request for a chat of a client whom the links let pass, with a body that is JSON.
  pub record IsAccepted (now now2 : ℕ) (req : Request) (w : World Db Net) : Type 0 where
    pub post : req.method ≡ bytes "POST"
    pub path : req.target ≡ bytes "/api/chat"
    pub id : ℤ
    pub repo' : Repository Db
    pub authenticated :
        authenticate M json (new_context req) w.repo
        ≡ (ok (record (new_context req) { api_key_id = id }), repo')
    pub bucket' : TokenBucket
    pub granted : try_acquire now now2 (pos 1) w.bucket ≡ some (bucket', true)
    pub body : Json
    pub parsed : parse req.body ≡ ok body

  try_stream-untyped :
      (req : Request) (b : Bool) (body : Json) (e' : Exception)
      → parse req.body ≡ ok body
      → value_bool body (bytes "stream") false ≡ throw e'
      → try_stream json adapters req b ≡ (b, throw e')
  unfolding try_stream
  try_stream-untyped req b body e' parsed untyped = rw (parsed, try_stream, untyped) refl

  handle_chat-untyped :
      (req : Request) (body : Json) (e : Exception) (w : World Db Net)
      → parse req.body ≡ ok body
      → (count adapters == 0) ≡ false
      → value_string body (bytes "model") (bytes "deepseek-v4-flash") ≡ throw e
      → handle_chat json M C adapters req w ≡ (throw e, w)
  unfolding handle_chat chat_with
  handle_chat-untyped req body e w parsed some_ai untyped =
      rw (parsed, handle_chat) (ground (arith, some_ai, untyped))

  routed-throw :
      (routes : Routes (World Db Net)) (req : Request) (s : Session) (w : World Db Net)
      (e e' : Exception)
      → dispatch json routes req w ≡ (throw e, w)
      → after_try json routes req s (s.is_streaming, throw e') w ≡ (throw e, w)
  unfolding after_try route
  routed-throw routes req s w e e' thrown = ground (arith, thrown)

  -- A POST to /api/chat of a client whose key is accepted and whom the bucket grants a token, with a
  -- body that is JSON: where the JSON library throws when the fields `stream` and `model` are read from
  -- it, and an adapter is registered, the exception leaves the handling of the request.
  pub serve_chat-throw :
      (now now2 : ℕ) (s : Session) (req : Request) (w : World Db Net) (e e' : Exception)
      (h : IsAccepted now now2 req w)
      → (count adapters == 0) ≡ false
      → value_bool h.body (bytes "stream") false ≡ throw e'
      → value_string h.body (bytes "model") (bytes "deepseek-v4-flash") ≡ throw e
      → serve M C json (all_routes json M C adapters master_key drawn) adapters now now2 s req w
        ≡ (throw e, record w { repo = h.repo'; bucket = h.bucket' })
  unfolding serve chain process log limit handle_request after_chain new_context
  serve_chat-throw now now2 s req w e e' h some_ai no_flag no_model =
      let w1 : World Db Net = record w { repo = h.repo'; bucket = h.bucket' } in
      let routes = all_routes json M C adapters master_key drawn in
      simp (h.authenticated, h.granted)
        (ap (λ t. after_try json routes req s t w1)
            (try_stream-untyped req s.is_streaming h.body e' h.parsed no_flag)
          ∙ routed-throw routes req s w1 e e' (
              ap (λ f. f w1) (dispatch_chat M C json adapters master_key drawn req h.post h.path)
              ∙ handle_chat-untyped req h.body e w1 h.parsed some_ai no_model))
