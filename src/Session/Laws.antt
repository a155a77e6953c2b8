-- ===== src/Session/Laws.antt =====
-- What becomes of a connection.
use ai_switch.Base.{
  ◌≡◌, refl, ap, Bool, true, false, List, ◌++◌, none, some, Bytes, bytes, arith, ltb,
}
use ai_switch.Base.Result.{ok}
use ai_switch.Json.{JsonLib}
use ai_switch.Http.{Request, Response}
use ai_switch.Router.{Routes, make_error_response, json_body, error_body}
use ai_switch.Middleware.{Context, new_context, Middleware, process}
use ai_switch.Adapter.{Adapter}
use ai_switch.Adapter.Factory.{create, count}
use ai_switch.Session.{
  Session, write, nothing, handle_request, after_chain, after_try, try_stream, open_stream,
  on_write,
}

module _ (json : JsonLib) where
  open json use {Json, parse, dump, value_bool, value_string}

  abbrev unsupported : Bytes → Json
  unsupported model = error_body json (bytes "unsupported_model") (bytes "不支持的模型: " ++ model)

  open_stream-unsupported :
      (adapters : List Adapter) (req : Request) (body : Json) (model text : Bytes)
      → value_string body (bytes "model") (bytes "deepseek-chat") ≡ ok model
      → create adapters model ≡ none
      → dump (unsupported model) ≡ ok text
      → open_stream json adapters req body
        ≡ ok (some (write (json_body 400 req.version req.keep_alive text)))
  unfolding open_stream make_error_response
  open_stream-unsupported adapters req body model text named missing dumped =
      ground (arith, missing)

  try_stream-unsupported :
      (adapters : List Adapter) (req : Request) (b : Bool) (body : Json) (model text : Bytes)
      → parse req.body ≡ ok body
      → value_bool body (bytes "stream") false ≡ ok true
      → ltb 0 (count adapters) ≡ true
      → value_string body (bytes "model") (bytes "deepseek-chat") ≡ ok model
      → create adapters model ≡ none
      → dump (unsupported model) ≡ ok text
      → try_stream json adapters req b
        ≡ (true, ok (some (write (json_body 400 req.version req.keep_alive text))))
  unfolding try_stream
  try_stream-unsupported adapters req b body model text parsed wanted any named missing dumped =
      rw (parsed, try_stream, wanted, any)
        (ap (λ r. (true, r))
          (open_stream-unsupported adapters req body model text named missing dumped))

  -- A request that the chain lets pass and that asks for a stream of a model that no adapter takes,
  -- though there is one at least, is answered with status 400 where the error can be written as
  -- JSON, and the session is left in its streaming state: once the response is written, where it
  -- keeps the connection, neither a read nor a close follows.
  pub handle_request-unsupported :
      {S : Type 0} (chain : List (Middleware S)) (routes : Routes S) (adapters : List Adapter)
      (s : Session) (req : Request) (w w' : S) (ctx : Context) (body : Json) (model text : Bytes)
      → process chain (new_context req) w ≡ (ok ctx, w')
      → ctx.terminated ≡ false
      → parse ctx.request.body ≡ ok body
      → value_bool body (bytes "stream") false ≡ ok true
      → ltb 0 (count adapters) ≡ true
      → value_string body (bytes "model") (bytes "deepseek-chat") ≡ ok model
      → create adapters model ≡ none
      → dump (unsupported model) ≡ ok text
      → (s' : Session) × (res : Response) × (handle_request json chain routes adapters s req w
          ≡ (ok (s', write res), w'))
        × (res.status ≡ 400)
        × (on_write false false s' ≡ (s', nothing))
  unfolding handle_request after_chain after_try json_body on_write
  handle_request-unsupported chain routes adapters s req w w' ctx body model text passed going
        parsed wanted any named missing dumped =
      (
        record s { is_streaming = true },
        json_body 400 ctx.request.version ctx.request.keep_alive text,
        simp (passed, going)
            (ap (λ t. after_try json routes ctx.request s t w')
              (try_stream-unsupported adapters ctx.request s.is_streaming body model text parsed
                wanted any named missing dumped)),
        refl,
        refl,
      )
