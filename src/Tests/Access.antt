-- ===== src/Tests/Access.antt =====
-- Runs of the first link and of whole requests.
use ai_switch.Base.{
  ◌≡◌, refl, ◌≢◌, ◌++◌, str_eq_iff, ◌⊎◌, inl, inr, true, false, List, [], ◌∷◌, none, some, Bytes,
  bytes, str_eq, find, starts_with,
}
use ai_switch.Base.Int.{ℤ, pos, ◌-ℤ◌}
use ai_switch.Base.Numbers.{stoll, stoi, signed, skip_spaces, magnitude, digits_from}
use ai_switch.Base.Result.{ok}
use ai_switch.Http.{Request}
use ai_switch.Router.{dispatch, make_error_response, error_body, json_body}
use ai_switch.Database.Mysql.{Row}
use ai_switch.Database.Repository.{
  Repository, ApiKeyResult, find_api_key, find_with, find_stored, take, give_back, run_query, fetch,
  in_buffer, first_row, read_row,
}
use ai_switch.RateLimiter.{TokenBucket, try_acquire, refill, seconds, consume, take_tokens, int64}
use ai_switch.Middleware.{Context, new_context, reject}
use ai_switch.Middleware.Auth.{
  bearer_of, extract_bearer_token, is_public, admit, check_token, authenticate,
}
use ai_switch.Middleware.Auth.Laws.{
  IsKeyHolder, IsRejected, IsRefused, authenticate_passed, authenticate_stopped,
}
use ai_switch.Adapter.{Adapter}
use ai_switch.Adapter.Factory.{create}
use ai_switch.Session.{new_session, stream}
use ai_switch.Gateway.{serve}
use ai_switch.Gateway.Access.{serve_stream, serve_public_stream}
use ai_switch.Gateway.Handlers.{unauthorized, all_routes}
use ai_switch.Gateway.Admin.{dispatch_admin_guarded}
use ai_switch.Tests.Toy.{
  toy_json, toy_mysql, toy_curl, repo, bucket, world, deepseek_ai, request, stream_body,
}

abbrev pub adapters : List Adapter
adapters = deepseek_ai ∷ []

abbrev holder : Request
holder = request (bytes "/api/chat") (some (bytes "Bearer sk_1")) stream_body

abbrev stranger : Request
stranger = request (bytes "/api/chat") none stream_body

abbrev open_path : Request
open_path = request (bytes "/health") none stream_body

abbrev pub after : Repository (List Row)
after = record repo { pool = record { idle = 4 ∷ 3 ∷ [] } }

abbrev passed : Context
passed = record { request = holder; response = none; terminated = false; api_key_id = pos 1 }

authenticate_run : authenticate toy_mysql toy_json (new_context holder) repo ≡ (ok passed, after)
unfolding authenticate is_public str_eq find starts_with extract_bearer_token bearer_of check_token
    admit new_context find_api_key find_with find_stored take give_back run_query fetch in_buffer
    first_row read_row stoll stoi signed skip_spaces magnitude digits_from
authenticate_run = refl

authenticate_passed_example :
    ((is_public (bytes "/api/chat") ≡ true) × (passed ≡ new_context holder) × (after ≡ repo))
    ⊎ (IsKeyHolder toy_mysql holder repo (pos 1)
        × (passed ≡ record (new_context holder) { api_key_id = pos 1 }))
unfolding new_context
authenticate_passed_example =
    authenticate_passed toy_mysql toy_json (new_context holder) passed repo after authenticate_run
      refl

abbrev refused : Context
refused = record (new_context stranger) {
  response = some (
      json_body 401 11 true (
        error_body toy_json (bytes "auth_failed")
          (bytes "缺少有效的 Authorization 头, 格式: Bearer <api_key>")));
  terminated = true;
}

refused_run : authenticate toy_mysql toy_json (new_context stranger) repo ≡ (ok refused, repo)
unfolding authenticate is_public str_eq find starts_with extract_bearer_token bearer_of new_context
    reject make_error_response
refused_run = refl

authenticate_stopped_example :
    (is_public (bytes "/api/chat") ≡ false)
    × (((extract_bearer_token stranger ≡ []) × IsRejected (new_context stranger) 401 refused)
        ⊎ ((res : ApiKeyResult) × ((find_api_key toy_mysql (extract_bearer_token stranger) repo).0
              ≡ ok res)
            × IsRefused toy_mysql toy_json (new_context stranger) res refused))
unfolding new_context
authenticate_stopped_example =
    authenticate_stopped toy_mysql toy_json (new_context stranger) refused repo repo refused_run
      refl refl

abbrev pub used : TokenBucket
used = record bucket { tokens = pos 1 }

pub bucket_run : try_acquire 0 0 (pos 1) bucket ≡ some (used, true)
unfolding try_acquire refill seconds consume take_tokens int64 ◌-ℤ◌
bucket_run = refl

serve_public_stream_example :
    serve toy_mysql toy_curl toy_json [] adapters 0 0 new_session open_path world ≡ (
      ok (record new_session { is_streaming = true }, stream deepseek_ai stream_body),
      record world { bucket = used },
    )
unfolding is_public str_eq create find starts_with
serve_public_stream_example =
    serve_public_stream toy_mysql toy_curl toy_json [] adapters 0 0 new_session open_path world used
      stream_body (bytes "deepseek-chat") deepseek_ai refl bucket_run refl refl refl refl

serve_stream_example :
    ((is_public (bytes "/health") ≡ true) ⊎ (id : ℤ) × IsKeyHolder toy_mysql open_path repo id)
    × ((b' : TokenBucket) × (try_acquire 0 0 (pos 1) bucket ≡ some (b', true)))
    × ((model : Bytes) × (create adapters model ≡ some deepseek_ai))
    × (ok stream_body ≡ ok stream_body)
serve_stream_example =
    serve_stream toy_mysql toy_curl toy_json [] adapters 0 0 new_session
      (record new_session { is_streaming = true }) open_path world (record world { bucket = used })
      deepseek_ai stream_body serve_public_stream_example

-- The header of a request that has another key than the master key.
key_of :
    some (bytes "Bearer sk_1") ≡ some (bytes "Bearer " ++ bytes "master")
    → bytes "Bearer sk_1" ≡ bytes "Bearer " ++ bytes "master"
key_of e = cc

other_key : bytes "Bearer sk_1" ≢ bytes "Bearer " ++ bytes "master"
unfolding str_eq
other_key e = cc ((str_eq_iff (bytes "Bearer sk_1") (bytes "Bearer " ++ bytes "master")).1 e)

dispatch_admin_guarded_example :
    dispatch toy_json
      (all_routes toy_json toy_mysql toy_curl adapters (bytes "master") [])
      (request (bytes "/admin/api-keys") (some (bytes "Bearer sk_1")) [])
      world
    ≡ (
      unauthorized toy_json (request (bytes "/admin/api-keys") (some (bytes "Bearer sk_1")) []),
      world,
    )
dispatch_admin_guarded_example =
    dispatch_admin_guarded toy_json toy_mysql toy_curl adapters (bytes "master") []
      (request (bytes "/admin/api-keys") (some (bytes "Bearer sk_1")) []) world (inr (inl refl))
      refl (λ e. other_key (key_of e))
