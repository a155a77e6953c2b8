-- ===== src/Tests/Chat.antt =====
-- A chat that a provider answers, and one where it fails.
use ai_switch.Base.{◌≡◌, refl, true, false, [], none, some, bytes, str_eq, find, starts_with}
use ai_switch.Base.Int.{pos}
use ai_switch.Base.Numbers.{
  stoll, stoi, signed, skip_spaces, magnitude, digits_from, to_string, decimal,
}
use ai_switch.Base.Result.{Exception, ok, throw, runtime_error}
use ai_switch.Http.{Request}
use ai_switch.Router.{json_body}
use ai_switch.Database.Repository.{
  find_api_key, find_with, find_stored, take, give_back, run_query, fetch, in_buffer, first_row,
  read_row,
}
use ai_switch.Middleware.{new_context}
use ai_switch.Middleware.Auth.{
  authenticate, is_public, extract_bearer_token, bearer_of, check_token, admit,
}
use ai_switch.Adapter.Curl.{Curl}
use ai_switch.Adapter.Chat.{
  chat_completion, build_request_body, openai_body, http_post, perform_post, http_result,
  read_answer,
}
use ai_switch.Adapter.Factory.{create}
use ai_switch.Session.{new_session, write}
use ai_switch.Gateway.{serve}
use ai_switch.Gateway.Handlers.{all_routes}
use ai_switch.Gateway.Chat.{IsChat, provider_error, serve_chat_answered, serve_chat_failed}
use ai_switch.Tests.Toy.{toy_json, toy_mysql, toy_curl, repo, world, deepseek_ai, request}
use ai_switch.Tests.Access.{adapters, after, used, bucket_run}

abbrev asking : Request
asking = request (bytes "/api/chat") (some (bytes "Bearer sk_1")) (bytes "nopedeepseek-chat")

passed_run :
    authenticate toy_mysql toy_json (new_context asking) repo
    ≡ (ok (record (new_context asking) { api_key_id = pos 1 }), after)
unfolding authenticate is_public str_eq find starts_with extract_bearer_token bearer_of check_token
    admit new_context find_api_key find_with find_stored take give_back run_query fetch in_buffer
    first_row read_row stoll stoi signed skip_spaces magnitude digits_from
passed_run = refl

-- A network on which the provider always answers with status 500.
abbrev broken : Curl
broken = record toy_curl {
  perform = λ t n. (record { error = none; write_error = false; http_code = 500; pieces = [] }, n);
}

is_chat :
    (C : Curl) (net : C.Net)
    → IsChat toy_mysql C toy_json adapters
        (bytes "m")
        []
        0
        0
        asking
        (record { repo = world.repo; bucket = world.bucket; net = net })
unfolding create find starts_with
is_chat C net = record {
  post = refl;
  path = refl;
  id = pos 1;
  repo' = after;
  authenticated = passed_run;
  bucket' = used;
  granted = bucket_run;
  body = bytes "nopedeepseek-chat";
  parsed = refl;
  plain = refl;
  model = bytes "deepseek-chat";
  named = refl;
  ai = deepseek_ai;
  chosen = refl;
}

answered_run :
    chat_completion toy_json toy_curl deepseek_ai (bytes "nopedeepseek-chat") tt
    ≡ (ok (bytes "an answer"), tt)
unfolding chat_completion build_request_body openai_body http_post perform_post http_result
    read_answer
answered_run = refl

serve_chat_answered_example :
    serve toy_mysql toy_curl toy_json
      (all_routes toy_json toy_mysql toy_curl adapters (bytes "m") [])
      adapters
      0
      0
      new_session
      asking
      world
    ≡ (
      ok (new_session, write (json_body 200 11 true (bytes "an answer"))),
      record world { repo = after; bucket = used },
    )
unfolding is_chat
serve_chat_answered_example =
    serve_chat_answered toy_mysql toy_curl toy_json adapters (bytes "m") [] 0 0 new_session asking
      world tt (bytes "an answer") (bytes "an answer") (is_chat toy_curl tt) answered_run refl

abbrev server_error : Exception
server_error = runtime_error (bytes "API 返回错误 (HTTP 500): ")

failed_run :
    chat_completion toy_json broken deepseek_ai (bytes "nopedeepseek-chat") tt
    ≡ (throw server_error, tt)
unfolding chat_completion build_request_body openai_body http_post perform_post http_result
    read_answer to_string decimal
failed_run = refl

serve_chat_failed_example :
    serve toy_mysql broken toy_json
      (all_routes toy_json toy_mysql broken adapters (bytes "m") [])
      adapters
      0
      0
      new_session
      asking
      world
    ≡ (
      ok (new_session, write (json_body 502 11 true (provider_error toy_json server_error))),
      record world { repo = after; bucket = used },
    )
unfolding is_chat
serve_chat_failed_example =
    serve_chat_failed toy_mysql broken toy_json adapters (bytes "m") [] 0 0 new_session asking world
      tt server_error _ (is_chat broken tt) failed_run refl
