-- ===== src/Tests/Connect.antt =====
-- A connection that answers a request, and is left behind the next one.
use ai_switch.Base.{
  ℕ, ◌≡◌, refl, true, false, not, List, [], ◌∷◌, none, some, Bytes, bytes, find, starts_with,
}
use ai_switch.Base.Result.{ok}
use ai_switch.Http.{Request, Response}
use ai_switch.Router.{
  Routes, make_error_response, error_body, json_body, not_found_message, dispatch, find_route,
}
use ai_switch.Middleware.{Middleware, new_context, process}
use ai_switch.Adapter.{Adapter}
use ai_switch.Adapter.Factory.{create, count}
use ai_switch.Session.{
  Session, new_session, write, handle_request, after_chain, after_try, try_stream, open_stream,
  route, on_read, on_write,
}
use ai_switch.Session.Connection.{
  Connection, reading, writing, left, Reach, here, next, request, written, accepted,
}
use ai_switch.Session.Connection.Streams.{IsStreaming}
use ai_switch.Session.Connection.Answers.{Paired, Reach-Paired, Reach-IsStreaming}
use ai_switch.Tests.Toy.{toy_json, deepseek_ai, request as to_request}

abbrev no_chain : List (Middleware ℕ)
no_chain = []

abbrev no_routes : Routes ℕ
no_routes = []

abbrev adapters : List Adapter
adapters = deepseek_ai ∷ []

abbrev need_eof : Response → ai_switch.Base.Bool
need_eof res = not res.keep_alive

abbrev plain : Request
plain = to_request (bytes "/") none (bytes "plain")

abbrev unknown : Request
unknown = to_request (bytes "/") none (bytes "truellama")

abbrev not_found : Response
not_found =
    json_body 404 11 true (error_body toy_json (bytes "not_found") (not_found_message (bytes "/")))

abbrev unsupported : Response
unsupported =
    json_body 400 11 true (error_body toy_json (bytes "unsupported_model") (bytes "不支持的模型: llama"))

abbrev streaming_session : Session
streaming_session = record { is_streaming = true; stream_headers_sent = false }

plain_run :
    handle_request toy_json no_chain no_routes adapters new_session plain 0
    ≡ (ok (new_session, write not_found), 0)
unfolding handle_request after_chain after_try try_stream route process new_context dispatch
    find_route make_error_response find starts_with
plain_run = refl

unknown_run :
    handle_request toy_json no_chain no_routes adapters new_session unknown 0
    ≡ (ok (streaming_session, write unsupported), 0)
unfolding handle_request after_chain after_try try_stream open_stream process new_context count
    create make_error_response find starts_with
unknown_run = refl

abbrev asked : Connection ℕ
asked = record (accepted 0) { pending = writing not_found; requests = plain ∷ [] }

abbrev answered : Connection ℕ
answered = record asked { pending = reading; responses = not_found ∷ [] }

abbrev asked_again : Connection ℕ
asked_again = record answered {
  session = streaming_session;
  pending = writing unsupported;
  requests = unknown ∷ plain ∷ [];
}

abbrev left_open : Connection ℕ
left_open = record asked_again { pending = left; responses = unsupported ∷ not_found ∷ [] }

to_answered : Reach toy_json no_chain no_routes adapters need_eof (accepted 0) answered
unfolding on_read on_write json_body
to_answered =
    next (next here (request plain new_session (write not_found) 0 refl plain_run))
      (written not_found refl)

to_left : Reach toy_json no_chain no_routes adapters need_eof (accepted 0) left_open
unfolding on_read on_write json_body
to_left =
    next
      (next to_answered (request unknown streaming_session (write unsupported) 0 refl unknown_run))
      (written unsupported refl)

Reach-Paired_example :
    (false ≡ false)
    × Paired toy_json no_chain no_routes adapters need_eof answered.requests answered.responses
Reach-Paired_example = Reach-Paired toy_json no_chain no_routes adapters need_eof 0 to_answered refl

Reach-IsStreaming_example :
    (req : Request) × (reqs : List Request) × (unknown ∷ plain ∷ [] ≡ req ∷ reqs)
    × IsStreaming toy_json no_chain req
    × Paired toy_json no_chain no_routes adapters need_eof left_open.requests left_open.responses
Reach-IsStreaming_example =
    Reach-IsStreaming toy_json no_chain no_routes adapters need_eof 0 to_left refl
