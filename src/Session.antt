-- ===== src/Session.antt =====
-- src/server/session.h and src/server/session.cpp: one connection. `S` is the state of all that the
-- sessions share. A callback of Boost.Asio is a function of the error code that it gets, `true` for
-- an error, and returns the operation that it starts.
pub mod Laws
pub mod Delivery
pub mod Task
pub mod Connection
use ai_switch.Base.{
  ℕ, Bool, true, false, not, ◌&&◌, List, [], ◌∷◌, ◌++◌, Option, none, some, Bytes, bytes, is_empty,
  length, if◌then◌else◌, ltb,
}
use ai_switch.Base.Result.{
  Result, ok, throw, fault, and_then, Exception, bad_optional_access, Eff, return, lift, ◌>>=◌,
  continue,
}
use ai_switch.Json.{JsonLib}
use ai_switch.Http.{Request, Response}
use ai_switch.Router.{Routes, dispatch, make_error_response}
use ai_switch.Middleware.{Context, new_context, Middleware, process}
use ai_switch.Adapter.{Adapter}
use ai_switch.Adapter.Factory.{create, count}
use ai_switch.Sse.{make_done_chunk}

pub record Session : Type 0 where
  pub is_streaming : Bool
  pub stream_headers_sent : Bool

abbrev pub new_session : Session
new_session = record { is_streaming = false; stream_headers_sent = false }

-- `ctx.response.value()`
abbrev pub response_of : Context → Result Response
response_of ctx = elim ctx.response [ none ↦ throw (bad_optional_access []) | some res ↦ ok res ]

module _ (json : JsonLib) where
  open json use {Json, parse, value_bool, value_string}

  -- What `handle_request` starts: the write of a response, or of the header of a stream, behind which
  -- the adapter is called with the body.
  pub data Action : Type 0 where
    write : Response → Action
    stream : Adapter → Json → Action

  -- The rest of the `try` block once a stream is wanted.
  unfoldable pub open_stream : List Adapter → Request → Json → Result (Option Action)
  open_stream adapters req body =
      and_then (value_string body (bytes "model") (bytes "deepseek-chat")) λ model.
        elim (create adapters model) [
          | none ↦
              and_then
                (make_error_response json 400 (bytes "unsupported_model")
                  (bytes "不支持的模型: " ++ model) req.version req.keep_alive)
                λ res. ok (some (write res))
          | some ai ↦ ok (some (stream ai body))
        ]

  -- The `try` block, with the value of `is_streaming_` when it is left.
  unfoldable pub try_stream : List Adapter → Request → Bool → Bool × Result (Option Action)
  try_stream adapters req streaming = elim (parse req.body) [
    | throw e ↦ (streaming, throw e)
    | fault ↦ (streaming, fault)
    | ok body ↦ elim (value_bool body (bytes "stream") false) [
      | throw e ↦ (streaming, throw e)
      | fault ↦ (streaming, fault)
      | ok want_stream ↦
          if want_stream && ltb 0 (count adapters)
          then (true, open_stream adapters req body)
          else (streaming, ok none)
    ]
  ]

  module _ {S : Type 0} where
    -- What `catch (...)` lets through goes to the router.
    unfoldable pub route : Routes S → Request → Session → Eff S (Session × Action)
    route routes req s = do res ← dispatch json routes req; return (s, write res)

    unfoldable pub after_try :
        Routes S → Request → Session → Bool × Result (Option Action) → Eff S (Session × Action)
    after_try routes req s (streaming, ok (some act)) =
        return (record s { is_streaming = streaming }, act)
    after_try routes req s (streaming, ok none) =
        route routes req (record s { is_streaming = streaming })
    after_try routes req s (streaming, throw e) =
        route routes req (record s { is_streaming = streaming })
    after_try routes req s (streaming, fault) = lift fault

    unfoldable pub after_chain :
        Routes S → List Adapter → Session → Context → Eff S (Session × Action)
    after_chain routes adapters s ctx =
        if ctx.terminated
        then (do res ← lift (response_of ctx); return (s, write res))
        else after_try routes ctx.request s (try_stream adapters ctx.request s.is_streaming)

    unfoldable pub handle_request :
        List (Middleware S) → Routes S → List Adapter → Session → Request → Eff S (Session × Action)
    handle_request chain routes adapters s req = do
      ctx ← process chain (new_context req)
      after_chain routes adapters s ctx

-- The operation that a callback starts: `nothing` leaves the connection with none.
pub data Next : Type 0 where
  read handle close nothing : Next

-- `do_close`
unfoldable pub closed : Session → Session × Next
closed s = (record s { is_streaming = false }, close)

unfoldable pub on_read : Bool → Session → Session × Next
unfolding closed
on_read ec s = if ec then closed s else (s, handle)

-- `need_eof` is that of the response that was written.
unfoldable pub on_write : Bool → Bool → Session → Session × Next
unfolding closed
on_write ec need_eof s =
    if ec
    then closed s
    else if need_eof
    then closed s
    else if s.is_streaming
    then (s, nothing)
    else (s, read)

-- The header is plain text, in front of the events.
unfoldable pub stream_header : Bool → Bytes
stream_header keep_alive =
    bytes
      "HTTP/1.1 200 OK\r\nContent-Type: text/event-stream\r\nCache-Control: no-cache\r\nConnection: "
    ++ (if keep_alive then bytes "keep-alive" else bytes "close")
    ++ bytes "\r\n\r\n"

-- The callback of the header: `handle` calls the adapter.
unfoldable pub on_header : Bool → Session → Session × Next
unfolding closed
on_header ec s = if ec then closed s else (record s { stream_headers_sent = true }, handle)

-- The bytes that `send_stream_chunk` writes, if any, and whether its callback closes the connection
-- whatever it gets.
unfoldable pub send_stream_chunk : Bytes → Bool → Session → Option (Bytes × Bool)
send_stream_chunk chunk done s =
    if not s.stream_headers_sent
    then none
    else if done
    then some (make_done_chunk, true)
    else some (chunk, false)

unfoldable pub on_chunk : Bool → Bool → Session → Session × Next
unfolding closed
on_chunk done ec s = if done then closed s else if ec then closed s else (s, nothing)
