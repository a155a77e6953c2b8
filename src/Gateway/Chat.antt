-- ===== src/Gateway/Chat.antt =====
-- A chat request of a client with a key, from the session to the provider and back.
use ai_switch.Base.{
  ℕ, ◌≡◌, refl, sym, ap, subst, ◌∙◌, Bool, true, false, List, [], ◌∷◌, none, some, Bytes, bytes,
  str_eq, arith, ◌==◌, ◌++◌,
}
use ai_switch.Base.Int.{ℤ, pos}
use ai_switch.Base.Result.{Exception, Result, ok, throw, and_then}
use ai_switch.Json.{JsonLib}
use ai_switch.Http.{Request, Response}
use ai_switch.Router.{
  Routes, dispatch, make_error_response, make_json_response, error_body, json_body,
}
use ai_switch.Database.Mysql.{Mysql}
use ai_switch.Database.Repository.{Repository}
use ai_switch.RateLimiter.{TokenBucket, try_acquire}
use ai_switch.Middleware.{new_context, process, log}
use ai_switch.Middleware.Auth.{authenticate}
use ai_switch.Middleware.RateLimit.{limit}
use ai_switch.Adapter.{Adapter}
use ai_switch.Adapter.Curl.{Curl}
use ai_switch.Adapter.Chat.{what, chat_completion}
use ai_switch.Adapter.Factory.{create, count}
use ai_switch.Session.{Session, write, handle_request, after_chain, after_try, try_stream, route}
use ai_switch.Gateway.{World, chain, serve}
use ai_switch.Gateway.Handlers.{
  handle_chat, chat_with, call_provider, or_provider_error, dumped, failure, all_routes,
}
use ai_switch.Gateway.Admin.{dispatch-all_routes}

abbrev pub provider_error : (json : JsonLib) → Exception → json.Json
provider_error json e = error_body json (bytes "provider_error") (bytes "AI 服务响应错误: " ++ what e)

module _ (M : Mysql) (C : Curl) (json : JsonLib) (adapters : List Adapter) (master_key : Bytes)
    (drawn : List ℕ) where
  open M use {Db}
  open C use {Net}
  open json use {Json, parse, dump, value_bool, value_string}

  pub dispatch_chat :
      (req : Request)
      → req.method ≡ bytes "POST"
      → req.target ≡ bytes "/api/chat"
      → dispatch json (all_routes json M C adapters master_key drawn) req
        ≡ handle_chat json M C adapters req
  unfolding str_eq
  dispatch_chat req m t =
      dispatch-all_routes json M C adapters master_key drawn req
        (subst (λ l. ai_switch.Router.Laws.NoSpace l) (sym m) (refl, (refl, (refl, (refl, tt)))))
      ∙ simp (m, t) refl

  -- A request for a chat that asks for no stream, of a client whom the links let pass, and the adapter
  -- that takes its model.
  pub record IsChat (now now2 : ℕ) (req : Request) (w : World Db Net) : Type 0 where
    pub post : req.method ≡ bytes "POST"
    pub path : req.target ≡ bytes "/api/chat"
    pub id : ℤ
    pub repo' : Repository Db
    pub authenticated :
        authenticate M json (new_context req) w.repo
        ≡ (ok (record (new_context req) { api_key_id = id }), repo')
    pub bucket' : TokenBucket
    pub granted : try_acquire now now2 (pos 1) w.bucket ≡ some (bucket', true)
    pub body : Json
    pub parsed : parse req.body ≡ ok body
    pub plain : value_bool body (bytes "stream") false ≡ ok false
    pub model : Bytes
    pub named : value_string body (bytes "model") (bytes "deepseek-v4-flash") ≡ ok model
    pub ai : Adapter
    pub chosen : create adapters model ≡ some ai

  some_adapter :
      (model : Bytes) (ai : Adapter) (ais : List Adapter)
      → create ais model ≡ some ai
      → (count ais == 0) ≡ false
  unfolding create count
  some_adapter model ai [] h = cc
  some_adapter model ai (a ∷ ais) h = ground arith

  call_provider_lem :
      (ai : Adapter) (body : Json) (req : Request) (res : Response) (net net' : Net)
      (answer : Result Json)
      → chat_completion json C ai body net ≡ (answer, net')
      → or_provider_error json M C req (and_then answer λ v. dumped json v req) ≡ ok res
      → call_provider json M C ai body req net ≡ (ok res, net')
  unfolding call_provider
  call_provider_lem ai body req res net net' answer called said = ground (arith, called)

  chat_with_lem :
      (body : Json) (req : Request) (w1 : World Db Net) (res : Response) (net' : Net)
      (model : Bytes) (ai : Adapter)
      → value_string body (bytes "model") (bytes "deepseek-v4-flash") ≡ ok model
      → create adapters model ≡ some ai
      → call_provider json M C ai body req w1.net ≡ (ok res, net')
      → chat_with json M C adapters body req w1 ≡ (ok res, record w1 { net = net' })
  unfolding chat_with
  chat_with_lem body req w1 res net' model ai named chosen called =
      ground (arith, some_adapter model ai adapters chosen, named, chosen, called)

  handle_chat_lem :
      (now now2 : ℕ) (req : Request) (w w1 : World Db Net) (res : Response) (net' : Net)
      → (h : IsChat now now2 req w) → call_provider json M C h.ai h.body req w1.net ≡ (ok res, net')
      → handle_chat json M C adapters req w1 ≡ (ok res, record w1 { net = net' })
  unfolding handle_chat
  handle_chat_lem now now2 req w w1 res net' h called =
      rw (h.parsed, handle_chat)
        (chat_with_lem h.body req w1 res net' h.model h.ai h.named h.chosen called)

  try_stream_plain :
      (req : Request) (b : Bool) (body : Json)
      → parse req.body ≡ ok body
      → value_bool body (bytes "stream") false ≡ ok false
      → try_stream json adapters req b ≡ (b, ok none)
  unfolding try_stream
  try_stream_plain req b body parsed plain = rw (parsed, try_stream, plain) refl

  after_try_plain :
      (routes : Routes (World Db Net)) (req : Request) (s : Session) (res : Response)
      (w w' : World Db Net)
      → dispatch json routes req w ≡ (ok res, w')
      → after_try json routes req s (s.is_streaming, ok none) w ≡ (ok (s, write res), w')
  unfolding after_try route
  after_try_plain routes req s res w w' answered = ground (arith, answered)

  served_lem :
      (now now2 : ℕ) (s : Session) (req : Request) (w : World Db Net) (res : Response) (net' : Net)
      → (h : IsChat now now2 req w) → call_provider json M C h.ai h.body req w.net ≡ (ok res, net')
      → serve M C json (all_routes json M C adapters master_key drawn) adapters now now2 s req w
        ≡ (ok (s, write res), record w { repo = h.repo'; bucket = h.bucket'; net = net' })
  unfolding serve chain process log limit handle_request after_chain new_context
  served_lem now now2 s req w res net' h called =
      let w1 : World Db Net = record w { repo = h.repo'; bucket = h.bucket' } in
      let routes = all_routes json M C adapters master_key drawn in
      simp (h.authenticated, h.granted)
        (ap (λ t. after_try json routes req s t w1)
            (try_stream_plain req s.is_streaming h.body h.parsed h.plain)
          ∙ after_try_plain routes req s res w1 (record w1 { net = net' })
              (ap (λ f. f w1) (dispatch_chat req h.post h.path)
                ∙ handle_chat_lem now now2 req w w1 res net' h called))

  -- A POST to /api/chat that asks for no stream, of a client whose key is accepted and whom the bucket
  -- grants a token, with a model that an adapter takes: where this adapter returns a value that can
  -- be written as JSON, the answer has status 200 and this text, and the state of the session is kept.
  pub serve_chat_answered :
      (now now2 : ℕ) (s : Session) (req : Request) (w : World Db Net) (net' : Net) (value : Json)
      (text : Bytes) (h : IsChat now now2 req w)
      → chat_completion json C h.ai h.body w.net ≡ (ok value, net')
      → dump value ≡ ok text
      → serve M C json (all_routes json M C adapters master_key drawn) adapters now now2 s req w ≡ (
        ok (s, write (json_body 200 req.version req.keep_alive text)),
        record w { repo = h.repo'; bucket = h.bucket'; net = net' },
      )
  unfolding dumped make_json_response or_provider_error
  serve_chat_answered now now2 s req w net' value text h called written =
      served_lem now now2 s req w (json_body 200 req.version req.keep_alive text) net' h (
        call_provider_lem h.ai h.body req (json_body 200 req.version req.keep_alive text) w.net net'
          (ok value) called (ground arith))

  -- A POST to /api/chat that asks for no stream, of a client whose key is accepted and whom the bucket
  -- grants a token, with a model that an adapter takes: where this adapter throws, whatever the
  -- exception, the answer has status 502 and the text of the exception, if that can be written as JSON,
  -- and the state of the session is kept.
  pub serve_chat_failed :
      (now now2 : ℕ) (s : Session) (req : Request) (w : World Db Net) (net' : Net) (e : Exception)
      (text : Bytes) (h : IsChat now now2 req w)
      → chat_completion json C h.ai h.body w.net ≡ (throw e, net')
      → dump (provider_error json e) ≡ ok text
      → serve M C json (all_routes json M C adapters master_key drawn) adapters now now2 s req w ≡ (
        ok (s, write (json_body 502 req.version req.keep_alive text)),
        record w { repo = h.repo'; bucket = h.bucket'; net = net' },
      )
  unfolding failure make_error_response or_provider_error
  serve_chat_failed now now2 s req w net' e text h called written =
      served_lem now now2 s req w (json_body 502 req.version req.keep_alive text) net' h (
        call_provider_lem h.ai h.body req (json_body 502 req.version req.keep_alive text) w.net net'
          (throw e) called (ground arith))
