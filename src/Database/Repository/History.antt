-- ===== src/Database/Repository/History.antt =====
-- Any history of calls of the repository, one after the other.
use ai_switch.Base.{ℕ, zero, suc, ◌≡◌, ap, ◌∙◌, List, [], ◌∷◌, Bytes, arith, length, inl, inr}
use ai_switch.Base.Int.{ℤ}
use ai_switch.Base.Result.{ok, Eff, return, ◌>>=◌, Result-cases}
use ai_switch.Database.Mysql.{Mysql}
use ai_switch.Database.Repository.{
  Repository, find_api_key, create_api_key, list_api_keys, disable_api_key,
}
use ai_switch.Database.Repository.Laws.{
  rotate, find_api_key-rotate, create_api_key-rotate, list_api_keys-rotate, disable_api_key-rotate,
}

-- A call of one of the four operations, with what the random generator draws for it.
pub data Operation : Type 0 where
  find : (key : Bytes) → Operation
  create : (drawn : List ℕ) (name : Bytes) (rate_limit : ℤ) → Operation
  list : Operation
  disable : (id : ℤ) → Operation

abbrev pub rotate_by : ℕ → List ℕ → List ℕ
rotate_by zero xs = xs
rotate_by (suc n) xs = rotate_by n (rotate xs)

module _ (M : Mysql) where
  abbrev done {ℓ} : {A : Type ℓ} → Eff (Repository M.Db) A → Eff (Repository M.Db) (Unit {0})
  done m = do _ ← m; return tt

  unfoldable pub run_operation : Operation → Eff (Repository M.Db) (Unit {0})
  run_operation (find key) = done (find_api_key M key)
  run_operation (create drawn name rate_limit) = done (create_api_key M drawn name rate_limit)
  run_operation list = done (list_api_keys M)
  run_operation (disable id) = done (disable_api_key M id)

  unfoldable pub run_operations : List Operation → Eff (Repository M.Db) (Unit {0})
  run_operations [] = return tt
  run_operations (op ∷ ops) = do _ ← run_operation op; run_operations ops

  returned {ℓ} :
      {A : Type ℓ} (m : Eff (Repository M.Db) A) (r r' : Repository M.Db)
      → done m r ≡ (ok tt, r')
      → (a : A) × (m r ≡ (ok a, r'))
  returned m r r' e = elim (Result-cases (m r).0) [
    | inl (a, f) ↦ (a, ground arith)
    | inr stopped ↦ absurd (ground arith)
  ]

  run_operation-rotate :
      (op : Operation) (r r' : Repository M.Db)
      → run_operation op r ≡ (ok tt, r')
      → r'.pool.idle ≡ rotate r.pool.idle
  unfolding run_operation
  run_operation-rotate (find key) r r' e =
      let (found, f) = returned (find_api_key M key) r r' e in
      find_api_key-rotate M key r r' found f
  run_operation-rotate (create drawn name rate_limit) r r' e =
      let (made, f) = returned (create_api_key M drawn name rate_limit) r r' e in
      create_api_key-rotate M drawn name rate_limit r r' made f
  run_operation-rotate list r r' e =
      let (keys, f) = returned (list_api_keys M) r r' e in list_api_keys-rotate M r r' keys f
  run_operation-rotate (disable id) r r' e =
      let (did, f) = returned (disable_api_key M id) r r' e in
      disable_api_key-rotate M id r r' did f

  -- After any history of calls that all return, on their error paths or not, every connection is back
  -- in the pool: the queue is the one at the start, turned by one place for each call.
  pub run_operations-rotate :
      (ops : List Operation) (r r' : Repository M.Db)
      → run_operations ops r ≡ (ok tt, r')
      → r'.pool.idle ≡ rotate_by (length ops) r.pool.idle
  unfolding run_operations
  run_operations-rotate [] r r' e = ground arith
  run_operations-rotate (op ∷ ops) r r' e = elim (Result-cases (run_operation op r).0) [
    | inl (u, f) ↦
        let s = (run_operation op r).1 in
        run_operations-rotate ops s r' (ground arith)
        ∙ ap (rotate_by (length ops)) (run_operation-rotate op r s (ground arith))
    | inr stopped ↦ absurd (ground arith)
  ]
