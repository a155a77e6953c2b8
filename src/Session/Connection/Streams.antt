-- ===== src/Session/Connection/Streams.antt =====
-- Which requests put a session in its streaming state.
use ai_switch.Base.{
  ◌≡◌, ap, ◌∙◌, inl, inr, Bool, true, false, List, Option, none, some, bytes, arith, Bool-cases,
}
use ai_switch.Base.Result.{Result, ok, throw, fault, Result-cases}
use ai_switch.Json.{JsonLib}
use ai_switch.Http.{Request}
use ai_switch.Router.{Routes}
use ai_switch.Middleware.{Context, new_context, Middleware, process}
use ai_switch.Adapter.{Adapter}
use ai_switch.Session.{Session, Action, handle_request, after_chain, after_try, try_stream, route}

module _ (json : JsonLib) {S : Type 0} (chain : List (Middleware S)) where
  -- A request that the chain lets pass and whose body asks for a stream.
  pub record IsStreaming (req : Request) : Type 0 where
    pub w : S
    pub w' : S
    pub ctx : Context
    pub passed : process chain (new_context req) w ≡ (ok ctx, w')
    pub going : ctx.terminated ≡ false
    pub body : json.Json
    pub parsed : json.parse ctx.request.body ≡ ok body
    pub wanted : json.value_bool body (bytes "stream") false ≡ ok true

module _ (json : JsonLib) {S : Type 0} (chain : List (Middleware S)) (routes : Routes S)
    (adapters : List Adapter) where
  try_stream-true :
      (req : Request) (r : Result (Option (Action json)))
      → try_stream json adapters req false ≡ (true, r)
      → (body : json.Json) × (json.parse req.body ≡ ok body)
        × (json.value_bool body (bytes "stream") false ≡ ok true)
  unfolding try_stream
  try_stream-true req r e = elim (Result-cases (json.parse req.body)) [
    | inl (body, parsed) ↦ elim (Result-cases (json.value_bool body (bytes "stream") false)) [
      | inl (want, wanted) ↦ elim (Bool-cases want) [
        | inl asked ↦ (body, parsed, wanted ∙ ap (λ b. ok b) asked)
        | inr refused ↦ absurd (ground arith)
      ]
      | inr stopped ↦ absurd (ground arith)
    ]
    | inr stopped ↦ absurd (ground arith)
  ]

  after_try_session :
      (req : Request) (s s' : Session) (b : Bool) (r : Result (Option (Action json)))
      (act : Action json) (w w' : S)
      → after_try json routes req s (b, r) w ≡ (ok (s', act), w')
      → s'.is_streaming ≡ b
  unfolding after_try route
  after_try_session req s s' b (ok (some a)) act w w' e = ground arith
  after_try_session req s s' b (ok none) act w w' e = ground arith
  after_try_session req s s' b (throw x) act w w' e = ground arith
  after_try_session req s s' b fault act w w' e = absurd (ground arith)

  pub handle_request-IsStreaming :
      (s s' : Session) (req : Request) (act : Action json) (w w' : S)
      → s.is_streaming ≡ false
      → handle_request json chain routes adapters s req w ≡ (ok (s', act), w')
      → s'.is_streaming ≡ true
      → IsStreaming json chain req
  unfolding handle_request after_chain
  handle_request-IsStreaming s s' req act w w' off handled on =
      elim (Result-cases (process chain (new_context req) w).0) [
        | inl (ctx, f) ↦ elim (Bool-cases ctx.terminated) [
          | inl over ↦ absurd (ground arith)
          | inr going ↦
              let w1 = (process chain (new_context req) w).1 in
              let t = try_stream json adapters ctx.request s.is_streaming in
              let same : s'.is_streaming ≡ t.0 =
                after_try_session ctx.request s s' t.0 t.1 act w1 w' (ground arith) in
              let (body, parsed, wanted) = try_stream-true ctx.request t.1 (ground arith) in
              record {
                w = w;
                w' = w1;
                ctx = ctx;
                passed = ground arith;
                going = going;
                body = body;
                parsed = parsed;
                wanted = wanted;
              }
        ]
        | inr stopped ↦ absurd (ground arith)
      ]
