-- ===== src/Tests/Revoke.antt =====
-- A key is disabled, and a client comes with it after two more calls.
use ai_switch.Base.{Bytes, ◌++◌, ◌≡◌, refl, true, List, [], ◌∷◌, some, bytes, str_eq, arith}
use ai_switch.Base.Int.{pos}
use ai_switch.Base.Result.{ok}
use ai_switch.Database.Repository.{Repository, generate_api_key}
use ai_switch.Database.Repository.History.{Operation, disable, list, create}
use ai_switch.Database.Repository.Table.{KeyTable, find_key, perform}
use ai_switch.Database.Repository.Table.Server.{Fits, AllFit}
use ai_switch.Database.Repository.Table.Refined.{answer_all}
use ai_switch.Middleware.{new_context}
use ai_switch.Http.{Request}
use ai_switch.Middleware.Auth.{bearer, extract_bearer_token, bearer_of}
use ai_switch.Gateway.Disabled.{serve-disable_api_key}
use ai_switch.Gateway.{World, serve}
use ai_switch.Session.{new_session, write}
use ai_switch.Router.{error_body, json_body}
use ai_switch.Tests.Access.{adapters}
use ai_switch.Tests.Toy.{toy_json, toy_curl, world, request}
use ai_switch.Tests.Issue.{drawn, key, info, in_range, guarded}
use ai_switch.Tests.Table.{
  TableDb, stored, table_server, Covered, table_server-IsServer, create_fits, key_fits,
}

abbrev asking : Request
asking = request (bytes "/api/chat") (some (bearer ++ key)) []

abbrev one_key : KeyTable
one_key = record { keys = info ∷ []; next_id = 8 }

abbrev pub holding : Repository TableDb
holding = record {
  pool = record { idle = 3 ∷ [] };
  db = record { table = one_key; rows = λ c. []; last_id = λ c. 0; affected = λ c. 0 };
}

abbrev later : List Operation
later = list ∷ create drawn (bytes "two") (pos 5) ∷ []

later_fits : AllFit table_server str_eq stored Covered (disable (pos 7) ∷ later) one_key
unfolding AllFit Fits Covered perform str_eq generate_api_key
later_fits = (refl, tt, (tt, tt, (refl, create_fits _ (omega arith), tt)))

key_found : find_key str_eq key one_key.keys ≡ some info
unfolding str_eq
key_found = refl

named : extract_bearer_token asking ≡ key
unfolding extract_bearer_token bearer_of str_eq new_context
named = refl

abbrev gate : World TableDb Unit
gate = record { repo = holding; bucket = world.bucket; net = tt }

abbrev refusal : Bytes
refusal = error_body toy_json (bytes "auth_failed") (bytes "API Key 无效或已被禁用")

serve-disable_api_key_example :
    (repo' : Repository TableDb) × (serve table_server toy_curl toy_json [] adapters 0 0 new_session
        asking
        (record gate { repo = (answer_all table_server (disable (pos 7) ∷ later) holding).1 })
      ≡ (ok (new_session, write (json_body 401 11 true refusal)), record gate { repo = repo' }))
unfolding Covered
serve-disable_api_key_example =
    serve-disable_api_key table_server toy_curl toy_json str_eq stored table_server-IsServer later
      key info [] adapters 0 0 new_session asking gate refusal (omega arith) (in_range, tt)
      key_found later_fits refl key_fits (λ e. cc) named guarded refl
