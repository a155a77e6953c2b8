-- ===== src/Tests/Chain.antt =====
-- Runs of the router, of the chain, of the factory and of a session.
use ai_switch.Base.{
  ℕ, ◌+◌, ◌≡◌, refl, true, false, List, [], ◌∷◌, none, some, Bytes, bytes, str_eq, find,
  starts_with,
}
use ai_switch.Base.Result.{ok, Eff}
use ai_switch.Stream.Blocks.{cut}
use ai_switch.Sse.Laws.{concat}
use ai_switch.Sse.{SseHandler}
use ai_switch.Adapter.Streaming.{Call, contents, write_all}
use ai_switch.Adapter.Streaming.Laws.{sent, any_done, write_all-concat}
use ai_switch.Http.{Request, Response}
use ai_switch.Router.{Routes, json_body}
use ai_switch.Middleware.{new_context, Middleware, process}
use ai_switch.Adapter.{Adapter}
use ai_switch.Adapter.Factory.{create, count}
use ai_switch.Adapter.Anthropic.{fresh, feed}
use ai_switch.Adapter.Anthropic.Laws.{feed_all, anthropic_feed_all-concat}
use ai_switch.Session.{Session, new_session, write, handle_request, on_write, nothing}
use ai_switch.Session.Laws.{handle_request-unsupported}
use ai_switch.Tests.Toy.{toy_json, deepseek_ai, request}

abbrev echo : Request → Eff ℕ Response
echo req n = (ok (json_body 200 11 true req.body), n + 1)

abbrev post : Request
post = request (bytes "/echo") none (bytes "hi")

-- A link that counts, and stops a request of version 10.
abbrev counting : Middleware ℕ
counting ctx n = (ok (record ctx { terminated = str_eq ctx.request.body (bytes "stop") }), n + 1)

abbrev adapters : List Adapter
adapters = deepseek_ai ∷ []

abbrev pieces : List Bytes
pieces = bytes "event: message" ∷ bytes "_stop\nda" ∷ bytes "ta: {}\n\nev" ∷ []

anthropic_feed_all-concat_example :
    feed_all toy_json fresh pieces ≡ feed toy_json fresh (concat pieces)
unfolding cut
anthropic_feed_all-concat_example = anthropic_feed_all-concat toy_json fresh pieces refl

abbrev no_routes : Routes ℕ
no_routes = []

abbrev unknown : Request
unknown = request (bytes "/api/chat") none (bytes "truellama")

handle_request-unsupported_example :
    (s' : Session) × (res : Response) × (handle_request toy_json [] no_routes adapters new_session
        unknown 0
      ≡ (ok (s', write res), 0))
    × (res.status ≡ 400)
    × (on_write false false s' ≡ (s', nothing))
unfolding process new_context count create find starts_with
handle_request-unsupported_example =
    handle_request-unsupported toy_json [] no_routes adapters new_session unknown 0 0
      (new_context unknown) (bytes "truellama") (bytes "llama") _ refl refl refl refl refl refl refl
      refl

-- The bytes of a stream in pieces, and what it sends on.
abbrev body_pieces : List Bytes
body_pieces = bytes "data: h" ∷ bytes "i\n\ndata: [DO" ∷ bytes "NE]\n\n" ∷ []

write_all-concat_example :
    (h' : SseHandler) × (calls : List Call) × (ms : List Bytes) × (write_all toy_json
        ai_switch.Sse.fresh body_pieces
      ≡ some (h', calls))
    × (ai_switch.Sse.feed ai_switch.Sse.fresh (concat body_pieces) ≡ some (h', ms))
    × (sent calls ≡ contents toy_json ms)
    × (any_done calls ≡ h'.done)
unfolding cut
write_all-concat_example = write_all-concat toy_json ai_switch.Sse.fresh body_pieces refl refl
