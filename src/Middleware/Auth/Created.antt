-- ===== src/Middleware/Auth/Created.antt =====
-- A client with a key that was created.
use ai_switch.Base.{
  ℕ, ◌<◌, ◌≡◌, ◌≢◌, refl, subst, sym, ◌∙◌, Bool, true, false, List, [], ◌∷◌, ◌++◌, none, some,
  Bytes, length, length-append, All, arith, Bool-cases, List-cases, inl, inr,
}
use ai_switch.Base.Int.{ℤ, pos}
use ai_switch.Base.Result.{ok, Result-cases}
use ai_switch.Json.{JsonLib}
use ai_switch.Database.Mysql.{Mysql}
use ai_switch.Database.Repository.{
  ApiKeyInfo, ApiKeyResult, Repository, find_api_key, create_api_key, generate_api_key, created,
}
use ai_switch.Database.Repository.Created.{IsInRange, found_result}
use ai_switch.Database.Repository.History.{Operation, find, create}
use ai_switch.Database.Repository.Table.{KeyTable, find_key, found, made, perform}
use ai_switch.Database.Repository.Table.Server.{IsServer, Fits, FitsNew}
use ai_switch.Database.Repository.Table.Calls.{answer, find-IsPerformed, fresh-IsPerformed}
use ai_switch.Database.Repository.Table.Refined.{perform-All}
use ai_switch.Middleware.{Context}
use ai_switch.Middleware.Auth.{
  bearer, extract_bearer_token, is_public, admit, check_token, authenticate,
}
use ai_switch.Middleware.Auth.Laws.{extract_bearer_token_iff}

module _ (M : Mysql) (json : JsonLib) (same : Bytes → Bytes → Bool) (table : M.Db → KeyTable) where
  open M use {Db, escape}

  authenticate_found :
      (ctx : Context) (r : Repository Db) (key : Bytes) (info : ApiKeyInfo)
      → key ≢ []
      → extract_bearer_token ctx.request ≡ key
      → is_public ctx.request.target ≡ false
      → (find_api_key M key r).0 ≡ ok (found_result info)
      → (authenticate M json ctx r).0 ≡ ok (record ctx { api_key_id = info.id })
  unfolding authenticate check_token admit
  authenticate_found ctx r key info some_key token guarded there = ground arith

  -- What the call behind an answer has returned.
  returned_found :
      (key : Bytes) (r : Repository Db) (result : ApiKeyResult)
      → (answer M (find key) r).0 ≡ ok (found result)
      → (find_api_key M key r).0 ≡ ok result
  unfolding answer
  returned_found key r result e = elim (Result-cases (find_api_key M key r).0) [
    | inl (res, f) ↦ ground arith
    | inr stopped ↦ absurd (ground arith)
  ]

  returned_made :
      (drawn : List ℕ) (name : Bytes) (limit : ℤ) (r : Repository Db) (info : ApiKeyInfo)
      → (answer M (create drawn name limit) r).0 ≡ ok (made info)
      → create_api_key M drawn name limit r ≡ (ok info, (answer M (create drawn name limit) r).1)
  unfolding answer
  returned_made drawn name limit r info e =
      elim (Result-cases (create_api_key M drawn name limit r).0) [
        | inl (res, f) ↦ ground arith
        | inr stopped ↦ absurd (ground arith)
      ]

  find_key-last :
      (key : Bytes) (keys : List ApiKeyInfo) (info : ApiKeyInfo)
      → find_key same key keys ≡ none
      → same info.api_key key ≡ true
      → find_key same key (keys ++ info ∷ []) ≡ some info
  find_key-last key [] info e h = ground arith
  find_key-last key (x ∷ rest) info e h = elim (Bool-cases (same x.api_key key)) [
    | inl equal ↦ absurd (ground arith)
    | inr other ↦ ground (arith, find_key-last key rest info)
  ]

  generate_api_key-some : (drawn : List ℕ) → generate_api_key drawn ≢ []
  unfolding generate_api_key
  generate_api_key-some drawn e = cc

  perform_found :
      (drawn : List ℕ) (name : Bytes) (limit : ℤ) (t : KeyTable)
      → find_key same (generate_api_key drawn) t.keys ≡ none
      → same (generate_api_key drawn) (generate_api_key drawn) ≡ true
      → (perform same
          (find (generate_api_key drawn))
          (perform same (create drawn name limit) t).1).0
        ≡ found (found_result (created t.next_id (generate_api_key drawn) name limit))
  unfolding perform
  perform_found drawn name limit t fresh h =
      let key = generate_api_key drawn in
      ground (arith, find_key-last key t.keys (created t.next_id key name limit) fresh h)

  -- The server does what the statements say of the creation of a key and of the lookup of that key, a
  -- connection is idle, the numbers in the table are in the range of their types, and the texts and the
  -- numbers of the new key fit. If the random key is not in the table, and is equal to itself in the
  -- comparison of its column, then the call returns the key with the next number of the table, and the
  -- link lets the next request pass whose header is `Bearer <key>`, for a path that is not public, and
  -- notes this number.
  pub authenticate-create_api_key :
      {Covers : Operation → Type 0} (server : IsServer M same table Covers) (drawn : List ℕ)
      (name : Bytes) (limit : ℤ) (r : Repository Db) (ctx : Context)
      → 0 < length r.pool.idle
      → All IsInRange (table r.db).keys
      → Covers (create drawn name limit)
      → Covers (find (generate_api_key drawn))
      → FitsNew M same table drawn name limit (table r.db)
      → find_key same (generate_api_key drawn) (table r.db).keys ≡ none
      → same (generate_api_key drawn) (generate_api_key drawn) ≡ true
      → ctx.request.authorization ≡ some (bearer ++ generate_api_key drawn)
      → is_public ctx.request.target ≡ false
      → (r' : Repository Db) × (create_api_key M drawn name limit r
          ≡ (ok (created (table r.db).next_id (generate_api_key drawn) name limit), r'))
        × ((authenticate M json ctx r').0
            ≡ ok (record ctx { api_key_id = pos (table r.db).next_id }))
  unfolding perform Fits
  authenticate-create_api_key server drawn name limit r ctx idle range c c' fits fresh equal header
        guarded =
      elim (List-cases r.pool.idle) [
        | inl empty ↦ absurd (ground arith)
        | inr (conn, rest, first) ↦
            let key = generate_api_key drawn in
            let info = created (table r.db).next_id key name limit in
            let op = create drawn name limit in
            let r' = (answer M op r).1 in
            let p =
              fresh-IsPerformed M same table r conn rest first drawn name limit fits fresh
                (server.inserts conn drawn name limit r.db c fresh) in
            let range' : All IsInRange (table r'.db).keys =
              subst (λ t. All IsInRange t.keys) (sym p.stored)
                (perform-All M same table op (table r.db) fits range) in
            (
              r',
              returned_made drawn name limit r info (p.answered ∙ ground (arith, fresh)),
              elim (List-cases r'.pool.idle) [
                | inl empty ↦ absurd (ground (arith, p.idle, length-append rest (conn ∷ [])))
                | inr (conn', rest', first') ↦
                    let q =
                      find-IsPerformed M same table r' conn' rest' first' key range' fits.key_fits
                        (server.selects conn' key r'.db c') in
                    authenticate_found ctx r' key info (generate_api_key-some drawn)
                      ((extract_bearer_token_iff ctx.request key (generate_api_key-some drawn)).1
                        header)
                      guarded
                      (returned_found key r' (found_result info) (
                        q.answered
                        ∙ subst
                            (λ t. ok (perform same (find key) t).0 ≡ ok (found (found_result info)))
                            (sym p.stored)
                            (rw (perform_found drawn name limit (table r.db) fresh equal) refl)))
              ],
            )
      ]
