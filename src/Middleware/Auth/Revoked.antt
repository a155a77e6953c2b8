-- ===== src/Middleware/Auth/Revoked.antt =====
-- A client with a key that was disabled.
use ai_switch.Base.{
  ℕ, ◌<◌, ◌≡◌, ◌≢◌, ap, subst, sym, ◌∙◌, Bool, false, List, [], ◌∷◌, some, Bytes, bytes, length,
  All, arith, List-cases, inl, inr,
}
use ai_switch.Base.Result.{ok, Result-cases}
use ai_switch.Json.{JsonLib}
use ai_switch.Database.Mysql.{Mysql}
use ai_switch.Database.Repository.{ApiKeyInfo, Repository, find_api_key, not_found}
use ai_switch.Database.Repository.Created.{IsInRange}
use ai_switch.Database.Repository.History.{Operation, find, disable}
use ai_switch.Database.Repository.Table.{KeyTable, find_key, found, perform}
use ai_switch.Database.Repository.Table.Server.{IsServer, AllFit}
use ai_switch.Database.Repository.Table.Calls.{answer, find-IsPerformed}
use ai_switch.Database.Repository.Table.Refined.{answer_all, history-IsRun}
use ai_switch.Database.Repository.Table.Revoked.{
  IsRevoked, disabled-IsRevoked, if_enabled-IsRevoked,
}
use ai_switch.Middleware.{Context, reject}
use ai_switch.Middleware.Auth.{extract_bearer_token, is_public, admit, check_token, authenticate}

module _ (M : Mysql) (json : JsonLib) (same : Bytes → Bytes → Bool) (table : M.Db → KeyTable) where
  open M use {Db, escape}

  authenticate_missing :
      (ctx : Context) (r : Repository Db) (key : Bytes)
      → key ≢ []
      → extract_bearer_token ctx.request ≡ key
      → is_public ctx.request.target ≡ false
      → (find_api_key M key r).0 ≡ ok not_found
      → (authenticate M json ctx r).0
        ≡ reject json 401 (bytes "auth_failed") (bytes "API Key 无效或已被禁用") ctx
  unfolding authenticate check_token admit
  authenticate_missing ctx r key some_key token guarded missing = ground arith

  -- What the call behind an answer has returned.
  returned_found :
      (key : Bytes) (r : Repository Db)
      → (answer M (find key) r).0 ≡ ok (found not_found)
      → (find_api_key M key r).0 ≡ ok not_found
  unfolding answer
  returned_found key r e = elim (Result-cases (find_api_key M key r).0) [
    | inl (result, f) ↦ ground arith
    | inr stopped ↦ absurd (ground arith)
  ]

  find_api_key-IsRevoked :
      {Covers : Operation → Type 0} (server : IsServer M same table Covers) (r : Repository Db)
      (key : Bytes)
      → 0 < length r.pool.idle
      → All IsInRange (table r.db).keys
      → Covers (find key)
      → ((c : ℕ) → length (escape c key) < 256)
      → IsRevoked same key (table r.db)
      → (find_api_key M key r).0 ≡ ok not_found
  unfolding perform
  find_api_key-IsRevoked server r key idle range c fits v = elim (List-cases r.pool.idle) [
    | inl empty ↦ absurd (ground arith)
    | inr (conn, rest, first) ↦
        let p =
          find-IsPerformed M same table r conn rest first key range fits
            (server.selects conn key r.db c) in
        returned_found key r
          (p.answered ∙ ap (λ x. ok (found x)) (if_enabled-IsRevoked same key (table r.db) v))
  ]

  -- Once the row of a key was disabled, and after any further calls of the repository, the link refuses
  -- a request with the key.
  pub authenticate-disable_api_key :
      {Covers : Operation → Type 0} (server : IsServer M same table Covers) (ops : List Operation)
      (r : Repository Db) (key : Bytes) (info : ApiKeyInfo) (ctx : Context)
      → 0 < length r.pool.idle
      → All IsInRange (table r.db).keys
      → find_key same key (table r.db).keys ≡ some info
      → AllFit M same table Covers (disable info.id ∷ ops) (table r.db)
      → Covers (find key)
      → ((c : ℕ) → length (escape c key) < 256)
      → key ≢ []
      → extract_bearer_token ctx.request ≡ key
      → is_public ctx.request.target ≡ false
      → (authenticate M json ctx (answer_all M (disable info.id ∷ ops) r).1).0
        ≡ reject json 401 (bytes "auth_failed") (bytes "API Key 无效或已被禁用") ctx
  authenticate-disable_api_key server ops r key info ctx idle range there f c fits some_key token
        guarded =
      let all = disable info.id ∷ ops in
      let run = history-IsRun M same table server all r idle range f in
      let r' = (answer_all M all r).1 in
      let revoked =
        subst (λ t. IsRevoked same key t) (sym run.stored)
          (disabled-IsRevoked same key ops (table r.db) info there) in
      authenticate_missing ctx r' key some_key token guarded
        (find_api_key-IsRevoked server r' key run.idle run.range c fits revoked)
