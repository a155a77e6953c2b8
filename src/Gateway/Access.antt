-- ===== src/Gateway/Access.antt =====
-- Which requests reach a provider.
use ai_switch.Base.{
  ℕ, ◌≡◌, sym, ap, ◌∙◌, ◌⊎◌, inl, inr, Bool, true, false, List, [], ◌∷◌, ◌++◌, Option, none, some,
  Bytes, bytes, arith, Bool-cases, Option-cases, ltb,
}
use ai_switch.Base.Int.{ℤ, pos}
use ai_switch.Base.Result.{Result, ok, throw, fault, Result-cases}
use ai_switch.Json.{JsonLib}
use ai_switch.Http.{Request}
use ai_switch.Router.{Routes, make_error_response, error_body, dispatch}
use ai_switch.Database.Mysql.{Mysql}
use ai_switch.RateLimiter.{TokenBucket, try_acquire}
use ai_switch.Middleware.{Context, new_context, process, add, log}
use ai_switch.Middleware.Auth.{authenticate, is_public}
use ai_switch.Middleware.Auth.Laws.{IsKeyHolder, authenticate_passed, reject_lem}
use ai_switch.Middleware.RateLimit.{limit}
use ai_switch.Adapter.{Adapter}
use ai_switch.Adapter.Curl.{Curl}
use ai_switch.Adapter.Factory.{create, count}
use ai_switch.Session.{
  Session, Action, stream, handle_request, after_chain, after_try, try_stream, open_stream, route,
}
use ai_switch.Gateway.{World, chain, serve, with_bucket}

count-create :
    (adapters : List Adapter) (model : Bytes) (ai : Adapter)
    → create adapters model ≡ some ai
    → ltb 0 (count adapters) ≡ true
unfolding create count
count-create [] model ai h = cc
count-create (a ∷ adapters) model ai h = ground arith

module _ (M : Mysql) (C : Curl) (json : JsonLib) where
  open M use {Db}
  open C use {Net}
  open json use {Json, parse, value_bool, value_string}

  open_stream_opens :
      (adapters : List Adapter) (req : Request) (body : Json) (model : Bytes) (ai : Adapter)
      → value_string body (bytes "model") (bytes "deepseek-chat") ≡ ok model
      → create adapters model ≡ some ai
      → open_stream json adapters req body ≡ ok (some (stream ai body))
  unfolding open_stream
  open_stream_opens adapters req body model ai named found = ground (arith, found)

  try_stream_opens :
      (adapters : List Adapter) (req : Request) (b : Bool) (body : Json) (model : Bytes)
      (ai : Adapter)
      → parse req.body ≡ ok body
      → value_bool body (bytes "stream") false ≡ ok true
      → value_string body (bytes "model") (bytes "deepseek-chat") ≡ ok model
      → create adapters model ≡ some ai
      → try_stream json adapters req b ≡ (true, ok (some (stream ai body)))
  unfolding try_stream
  try_stream_opens adapters req b body model ai parsed wanted named found =
      rw (parsed, try_stream, wanted, count-create adapters model ai found)
        (ap (λ r. (true, r)) (open_stream_opens adapters req body model ai named found))

  -- A request with a public path whose body parses and asks for a stream of a model that an adapter
  -- takes gets one without any key: where the bucket grants it a token, the header of a stream is
  -- written, behind which the adapter is called with the request's body.
  pub serve_public_stream :
      (routes : Routes (World Db Net)) (adapters : List Adapter) (now now2 : ℕ) (s : Session)
      (req : Request) (w : World Db Net) (b' : TokenBucket) (body : Json) (model : Bytes)
      (ai : Adapter)
      → is_public req.target ≡ true
      → try_acquire now now2 (pos 1) w.bucket ≡ some (b', true)
      → parse req.body ≡ ok body
      → value_bool body (bytes "stream") false ≡ ok true
      → value_string body (bytes "model") (bytes "deepseek-chat") ≡ ok model
      → create adapters model ≡ some ai
      → serve M C json routes adapters now now2 s req w
        ≡ (ok (record s { is_streaming = true }, stream ai body), record w { bucket = b' })
  unfolding serve chain process log authenticate limit handle_request after_chain after_try
      new_context
  serve_public_stream routes adapters now now2 s req w b' body model ai open_path granted parsed
        wanted named found =
      simp (open_path, granted)
        (ap (λ t. after_try json routes req s t (record w { bucket = b' }))
          (try_stream_opens adapters req s.is_streaming body model ai parsed wanted named found))

  limit_passed :
      (now now2 : ℕ) (c : Context) (w w' : World Db Net) (ctx : Context)
      → process (add log (add (λ c. with_bucket M C json (limit json now now2 c)) [])) c w
        ≡ (ok ctx, w')
      → ctx.terminated ≡ false
      → (b' : TokenBucket) × (try_acquire now now2 (pos 1) w.bucket ≡ some (b', true)) × (ctx ≡ c)
  unfolding process log limit add
  limit_passed now now2 c w w' ctx e p =
      elim (Option-cases (try_acquire now now2 (pos 1) w.bucket)) [
        | inl over ↦ absurd (ground arith)
        | inr ((b', true), f) ↦ (b', f, ground arith)
        | inr ((b', false), f) ↦ absurd (
            ground
              (arith, reject_lem json 429 (bytes "rate_limited") (bytes "请求过于频繁, 请稍后重试") c ctx))
      ]

  chain_passed :
      (now now2 : ℕ) (req : Request) (w w' : World Db Net) (ctx : Context)
      → process (chain M C json now now2) (new_context req) w ≡ (ok ctx, w')
      → ctx.terminated ≡ false
      → ((is_public req.target ≡ true) ⊎ (id : ℤ) × IsKeyHolder M req w.repo id)
        × (b' : TokenBucket) × (try_acquire now now2 (pos 1) w.bucket ≡ some (b', true))
        × (ctx.request ≡ req)
  unfolding chain process log limit new_context
  chain_passed now now2 req w w' ctx e p =
      elim (Result-cases (authenticate M json (new_context req) w.repo).0) [
        | inl (c, f) ↦ elim (Bool-cases c.terminated) [
          | inl t ↦ absurd (ground arith)
          | inr t ↦
              let r = (authenticate M json (new_context req) w.repo).1 in
              let (b', granted, same) =
                limit_passed now now2 c (record w { repo = r }) w' ctx (ground arith) p in
              elim (authenticate_passed M json (new_context req) c w.repo r (ground arith) t) [
                | inl (open_path, same_c, _) ↦
                    (inl open_path, b', granted, ap (λ (x : Context). x.request) (same ∙ same_c))
                | inr (holder, same_c) ↦ (
                  inr (c.api_key_id, holder),
                  b',
                  granted,
                  ap (λ (x : Context). x.request) (same ∙ same_c),
                )
              ]
        ]
        | inr stopped ↦ absurd (ground arith)
      ]

  open_stream_stream :
      (adapters : List Adapter) (req : Request) (read body : Json) (ai : Adapter)
      → open_stream json adapters req read ≡ ok (some (stream ai body))
      → ((model : Bytes) × (create adapters model ≡ some ai)) × (read ≡ body)
  unfolding open_stream make_error_response
  open_stream_stream adapters req read body ai e =
      elim (Result-cases (value_string read (bytes "model") (bytes "deepseek-chat"))) [
        | inl (model, f) ↦ elim (Option-cases (create adapters model)) [
          | inl missing ↦ absurd (
              ground (
                arith,
                Result-cases (
                    json.dump
                      (error_body json (bytes "unsupported_model") (bytes "不支持的模型: " ++ model))),
              ))
          | inr (found, g) ↦ ((model, ground (arith, g)), ground (arith, g))
        ]
        | inr stopped ↦ absurd (ground arith)
      ]

  try_stream_stream :
      (adapters : List Adapter) (req : Request) (b flag : Bool) (ai : Adapter) (body : Json)
      → try_stream json adapters req b ≡ (flag, ok (some (stream ai body)))
      → ((model : Bytes) × (create adapters model ≡ some ai)) × (parse req.body ≡ ok body)
  unfolding try_stream
  try_stream_stream adapters req b flag ai body e = elim (Result-cases (parse req.body)) [
    | inl (read, f) ↦ elim (Result-cases (value_bool read (bytes "stream") false)) [
      | inl (true, g) ↦ elim (Bool-cases (ltb 0 (count adapters))) [
        | inl some_one ↦
            let (chosen, same) = open_stream_stream adapters req read body ai (ground arith) in
            (chosen, f ∙ ap ok same)
        | inr no_one ↦ absurd (ground arith)
      ]
      | inl (false, g) ↦ absurd (ground arith)
      | inr stopped ↦ absurd (ground arith)
    ]
    | inr stopped ↦ absurd (ground arith)
  ]

  after_try_stream :
      (routes : Routes (World Db Net)) (req : Request) (s s' : Session) (w w' : World Db Net)
      (tried : Bool × Result (Option (Action json))) (ai : Adapter) (body : Json)
      → after_try json routes req s tried w ≡ (ok (s', stream ai body), w')
      → (flag : Bool) × (tried ≡ (flag, ok (some (stream ai body))))
  unfolding after_try route
  after_try_stream routes req s s' w w' (flag, ok (some act)) ai body e = (flag, ground arith)
  after_try_stream routes req s s' w w' (flag, ok none) ai body e =
      absurd (ground (arith, Result-cases (dispatch json routes req w).0))
  after_try_stream routes req s s' w w' (flag, throw x) ai body e =
      absurd (ground (arith, Result-cases (dispatch json routes req w).0))
  after_try_stream routes req s s' w w' (flag, fault) ai body e = absurd (ground arith)

  -- A stream is opened to a provider only for a request whose path is public or whose header names a
  -- key that the database holds as enabled, after the bucket granted it a token; the body sent on is
  -- the request's, and the adapter is one that the factory chose.
  pub serve_stream :
      (routes : Routes (World Db Net)) (adapters : List Adapter) (now now2 : ℕ) (s s' : Session)
      (req : Request) (w w' : World Db Net) (ai : Adapter) (body : Json)
      → serve M C json routes adapters now now2 s req w ≡ (ok (s', stream ai body), w')
      → ((is_public req.target ≡ true) ⊎ (id : ℤ) × IsKeyHolder M req w.repo id)
        × ((b' : TokenBucket) × (try_acquire now now2 (pos 1) w.bucket ≡ some (b', true)))
        × ((model : Bytes) × (create adapters model ≡ some ai))
        × (parse req.body ≡ ok body)
  unfolding serve handle_request after_chain
  serve_stream routes adapters now now2 s s' req w w' ai body e =
      elim (Result-cases (process (chain M C json now now2) (new_context req) w).0) [
        | inl (ctx, f) ↦ elim (Bool-cases ctx.terminated) [
          | inl t ↦ absurd (ground (arith, Option-cases ctx.response))
          | inr t ↦
              let w1 = (process (chain M C json now now2) (new_context req) w).1 in
              let (who, b', granted, same) = chain_passed now now2 req w w1 ctx (ground arith) t in
              let (flag, tried) =
                after_try_stream routes ctx.request s s' w1 w'
                  (try_stream json adapters ctx.request s.is_streaming) ai body (ground arith) in
              let (chosen, parsed) =
                try_stream_stream adapters ctx.request s.is_streaming flag ai body tried in
              (who, (b', granted), chosen, ap (λ (r : Request). parse r.body) (sym same) ∙ parsed)
        ]
        | inr stopped ↦ absurd (ground arith)
      ]
