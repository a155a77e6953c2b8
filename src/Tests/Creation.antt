-- ===== src/Tests/Creation.antt =====
-- A key is created, and a client comes with it.
use ai_switch.Base.{◌≡◌, refl, bytes, str_eq, arith, true}
use ai_switch.Base.Int.{pos}
use ai_switch.Base.Result.{ok}
use ai_switch.Database.Repository.{Repository, create_api_key, generate_api_key}
use ai_switch.Middleware.{new_context}
use ai_switch.Middleware.Auth.{authenticate}
use ai_switch.Middleware.Auth.Created.{authenticate-create_api_key}
use ai_switch.Tests.Toy.{toy_json}
use ai_switch.Tests.Issue.{drawn, info, ctx, guarded}
use ai_switch.Tests.Table.{
  TableDb, stored, table_server, Covered, table_server-IsServer, create_fits, new_repo,
}

covers :
    Covered (ai_switch.Database.Repository.History.create drawn (bytes "two") (pos 5))
    × Covered (ai_switch.Database.Repository.History.find (generate_api_key drawn))
unfolding Covered generate_api_key
covers = (refl, refl)

equal : str_eq (generate_api_key drawn) (generate_api_key drawn) ≡ true
unfolding str_eq generate_api_key
equal = refl

authenticate-create_api_key_example :
    (r' : Repository TableDb) × (create_api_key table_server drawn (bytes "two") (pos 5) new_repo
      ≡ (ok info, r'))
    × ((authenticate table_server toy_json ctx r').0 ≡ ok (record ctx { api_key_id = pos 7 }))
unfolding generate_api_key new_context
authenticate-create_api_key_example =
    authenticate-create_api_key table_server toy_json str_eq stored table_server-IsServer drawn
      (bytes "two") (pos 5) new_repo ctx (omega arith) tt covers.0 covers.1
      (create_fits new_repo.db.table (omega arith)) refl equal refl guarded
