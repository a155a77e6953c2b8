-- ===== src/Tests/Escape.antt =====
-- A request that ends the program.
use ai_switch.Base.{
  ◌≡◌, refl, true, List, [], ◌∷◌, ◌++◌, none, some, bytes, str_eq, find, starts_with,
}
use ai_switch.Base.Result.{Exception, ok, throw, type_error, parse_error}
use ai_switch.Json.{JsonLib}
use ai_switch.Http.{Request}
use ai_switch.Router.{
  Routes, make_key, find_route, add_route, set_route, error_body, not_found_message,
}
use ai_switch.Database.Mysql.{Row}
use ai_switch.Middleware.Auth.{is_public}
use ai_switch.Session.{new_session}
use ai_switch.Gateway.{World, serve}
use ai_switch.Gateway.Handlers.{all_routes}
use ai_switch.Gateway.Escape.{serve_public-throw}
use ai_switch.Tests.Toy.{toy_json, toy_mysql, toy_curl, world, request}
use ai_switch.Tests.Access.{adapters, used, bucket_run}

abbrev not_utf8 : Exception
not_utf8 = type_error (bytes "invalid UTF-8 byte")

-- A library that writes no text with the byte 255.
abbrev strict : JsonLib
strict = record toy_json {
  dump = λ s. elim (find (255 ∷ []) s) [ none ↦ ok s | some n ↦ throw not_utf8 ];
}

abbrev routes : Routes (World (List Row) Unit)
routes = all_routes strict toy_mysql toy_curl adapters (bytes "master") []

abbrev bad_path : Request
bad_path = request (bytes "/admin/" ++ 255 ∷ []) none []

missing : find_route (make_key bad_path.method bad_path.target) routes ≡ none
unfolding all_routes add_route set_route find_route make_key str_eq
missing = refl

undumped :
    strict.dump (error_body strict (bytes "not_found") (not_found_message bad_path.target))
    ≡ throw not_utf8
unfolding find starts_with error_body
undumped = refl

open_path : is_public bad_path.target ≡ true
unfolding is_public str_eq find starts_with
open_path = refl

serve_public-throw_example :
    serve toy_mysql toy_curl strict routes adapters 0 0 new_session bad_path world
    ≡ (throw not_utf8, record world { bucket = used })
serve_public-throw_example =
    serve_public-throw toy_mysql toy_curl strict routes adapters 0 0 new_session bad_path world used
      not_utf8 (parse_error (bytes "empty")) open_path bucket_run refl missing undumped
