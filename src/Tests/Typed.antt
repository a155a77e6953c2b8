-- ===== src/Tests/Typed.antt =====
-- A chat request with an array for its body.
use ai_switch.Base.{◌≡◌, refl, [], some, bytes, str_eq, find, starts_with}
use ai_switch.Base.Int.{pos}
use ai_switch.Base.Numbers.{stoll, stoi, signed, skip_spaces, magnitude, digits_from}
use ai_switch.Base.Result.{Exception, ok, throw, type_error}
use ai_switch.Json.{JsonLib}
use ai_switch.Http.{Request}
use ai_switch.Database.Repository.{
  find_api_key, find_with, find_stored, take, give_back, run_query, fetch, in_buffer, first_row,
  read_row,
}
use ai_switch.Middleware.{new_context}
use ai_switch.Middleware.Auth.{
  authenticate, is_public, extract_bearer_token, bearer_of, check_token, admit,
}
use ai_switch.Adapter.Factory.{count}
use ai_switch.Session.{new_session}
use ai_switch.Gateway.{serve}
use ai_switch.Gateway.Handlers.{all_routes}
use ai_switch.Gateway.Typed.{IsAccepted, serve_chat-throw}
use ai_switch.Tests.Toy.{toy_json, toy_mysql, toy_curl, repo, world, request}
use ai_switch.Tests.Access.{adapters, after, used, bucket_run}

abbrev not_object : Exception
not_object = type_error (bytes "cannot use value() with array")

-- A library that has read an array.
abbrev arrays : JsonLib
arrays = record toy_json {
  value_bool = λ j k d. throw not_object;
  value_string = λ j k d. throw not_object;
}

abbrev listing : Request
listing = request (bytes "/api/chat") (some (bytes "Bearer sk_1")) (bytes "[]")

listing_run :
    authenticate toy_mysql arrays (new_context listing) repo
    ≡ (ok (record (new_context listing) { api_key_id = pos 1 }), after)
unfolding authenticate is_public str_eq find starts_with extract_bearer_token bearer_of check_token
    admit new_context find_api_key find_with find_stored take give_back run_query fetch in_buffer
    first_row read_row stoll stoi signed skip_spaces magnitude digits_from
listing_run = refl

is_accepted : IsAccepted toy_mysql toy_curl arrays adapters (bytes "m") [] 0 0 listing world
is_accepted = record {
  post = refl;
  path = refl;
  id = pos 1;
  repo' = after;
  authenticated = listing_run;
  bucket' = used;
  granted = bucket_run;
  body = bytes "[]";
  parsed = refl;
}

serve_chat-throw_example :
    serve toy_mysql toy_curl arrays
      (all_routes arrays toy_mysql toy_curl adapters (bytes "m") [])
      adapters
      0
      0
      new_session
      listing
      world
    ≡ (throw not_object, record world { repo = after; bucket = used })
unfolding is_accepted count
serve_chat-throw_example =
    serve_chat-throw toy_mysql toy_curl arrays adapters (bytes "m") [] 0 0 new_session listing world
      not_object not_object is_accepted refl refl refl
