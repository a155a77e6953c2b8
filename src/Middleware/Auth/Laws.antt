-- ===== src/Middleware/Auth/Laws.antt =====
-- Whom the first link lets pass.
use ai_switch.Base.{
  ℕ, zero, suc, ◌≡◌, refl, sym, ap, ◌∙◌, ◌≢◌, ◌↔◌, ◌⊎◌, inl, inr, true, false, List, [], ◌∷◌, ◌++◌,
  some, Bytes, bytes, str_eq, str_eq→eq, take, drop, length, arith, Bool-cases, Option-cases,
  List-cases,
}
use ai_switch.Base.Result.{ok, Result-cases}
use ai_switch.Base.Int.{ℤ}
use ai_switch.Json.{JsonLib}
use ai_switch.Http.{Request, Response}
use ai_switch.Router.{make_error_response, json_body, error_body}
use ai_switch.Database.Mysql.{Mysql}
use ai_switch.Database.Repository.{Repository, ApiKeyResult, ApiKeyInfo, find_api_key}
use ai_switch.Database.Repository.Laws.{IsFound, find_api_key_found}
use ai_switch.Middleware.{Context, reject}
use ai_switch.Middleware.Auth.{
  bearer, bearer_of, extract_bearer_token, is_public, admit, check_token, authenticate,
  missing_message,
}

take-drop : (n : ℕ) (s : Bytes) → take n s ++ drop n s ≡ s
take-drop zero s = refl
take-drop (suc n) [] = refl
take-drop (suc n) (x ∷ s) = ap (λ t. x ∷ t) (take-drop n s)

bearer_of-bearer : (t : Bytes) → t ≢ [] → bearer_of (bearer ++ t) ≡ t
unfolding bearer_of str_eq
bearer_of-bearer [] h = absurd (h refl)
bearer_of-bearer (c ∷ t) h = ground arith

bearer_of_split : (v t : Bytes) → t ≢ [] → bearer_of v ≡ t → v ≡ bearer ++ t
unfolding bearer_of
bearer_of_split v t h e = elim (Bool-cases (str_eq (take (length bearer) v) bearer)) [
  | inl same ↦
      let front : take (length bearer) v ≡ bearer =
        str_eq→eq (take (length bearer) v) bearer same in
      let back : drop (length bearer) v ≡ t = ground arith in
      sym (take-drop (length bearer) v)
      ∙ ap (λ p. p ++ drop (length bearer) v) front
      ∙ ap (λ s. bearer ++ s) back
  | inr other ↦ absurd (ground arith)
]

-- A token is read exactly from the header `Bearer <token>`, for every token that is not empty.
pub extract_bearer_token_iff :
    (req : Request) (t : Bytes)
    → t ≢ []
    → (extract_bearer_token req ≡ t) ↔ (req.authorization ≡ some (bearer ++ t))
unfolding extract_bearer_token
extract_bearer_token_iff req t h = elim (Option-cases req.authorization) [
  | inl missing ↦ (λ e. absurd (ground arith), λ e. cc)
  | inr (v, present) ↦ (
    λ e. present ∙ ap some (bearer_of_split v t h (ground arith)),
    λ e. ground (arith, bearer_of-bearer t),
  )
]

-- The response of a rejected request.
abbrev pub IsRejected : Context → ℕ → Context → Type 0
IsRejected ctx status ctx' =
    (res : Response) × (ctx' ≡ record ctx { response = some res; terminated = true })
    × (res.status ≡ status)

pub reject_lem :
    (json : JsonLib) (status : ℕ) (code message : Bytes) (ctx ctx' : Context)
    → reject json status code message ctx ≡ ok ctx'
    → IsRejected ctx status ctx'
unfolding reject make_error_response json_body
reject_lem json status code message ctx ctx' e =
    elim (Result-cases (json.dump (error_body json code message))) [
      | inl (body, f) ↦ (
        json_body status ctx.request.version ctx.request.keep_alive body,
        ground arith,
        ground arith,
      )
      | inr stopped ↦ absurd (ground arith)
    ]

-- The request names a key that the database holds as enabled, under the id `id`.
pub record IsKeyHolder (M : Mysql) (req : Request) (r : Repository M.Db) (id : ℤ) : Type 0 where
  pub token : Bytes
  pub header : req.authorization ≡ some (bearer ++ token)
  pub conn : ℕ
  pub others : List ℕ
  pub idle : r.pool.idle ≡ conn ∷ others
  pub info : ApiKeyInfo
  pub found : IsFound M token r.db conn info
  pub same_id : info.id ≡ id

module _ (M : Mysql) (json : JsonLib) where
  open M use {Db}

  admit_passed :
      (ctx ctx' : Context) (res : ApiKeyResult) (r r' : Repository Db)
      → admit M json ctx res r ≡ (ok ctx', r')
      → ctx'.terminated ≡ false
      → (res.found ≡ true) × (ctx' ≡ record ctx { api_key_id = res.info.id })
  unfolding admit
  admit_passed ctx ctx' res r r' e p = ground (
    arith,
    reject_lem json 503 (bytes "service_unavailable") (bytes "服务暂时不可用, 请稍后重试") ctx ctx',
    reject_lem json 401 (bytes "auth_failed") (bytes "API Key 无效或已被禁用") ctx ctx',
  )

  check_token_passed :
      (ctx ctx' : Context) (token : Bytes) (r r' : Repository Db)
      → ctx.request.authorization ≡ some (bearer ++ token)
      → check_token M json ctx token r ≡ (ok ctx', r')
      → ctx'.terminated ≡ false
      → IsKeyHolder M ctx.request r ctx'.api_key_id
        × (ctx' ≡ record ctx { api_key_id = ctx'.api_key_id })
  unfolding check_token
  check_token_passed ctx ctx' token r r' header e p =
      elim (Result-cases (find_api_key M token r).0) [
        | inl (res, f) ↦
            let s = (find_api_key M token r).1 in
            let (found, same) = admit_passed ctx ctx' res s r' (ground arith) p in
            let (conn, others, idle, is_found) =
              find_api_key_found M token r s res (ground arith) found in
            (
              record {
                token = token;
                header = header;
                conn = conn;
                others = others;
                idle = idle;
                info = res.info;
                found = is_found;
                same_id = ap (λ (c : Context). c.api_key_id) (sym same);
              },
              ground arith,
            )
        | inr stopped ↦ absurd (ground arith)
      ]

  -- A request that the link lets pass has a public path, and then nothing changes, or its header
  -- names a key that the database holds as enabled; then the context gets the id of that key and
  -- keeps all else.
  pub authenticate_passed :
      (ctx ctx' : Context) (r r' : Repository Db)
      → authenticate M json ctx r ≡ (ok ctx', r')
      → ctx'.terminated ≡ false
      → ((is_public ctx.request.target ≡ true) × (ctx' ≡ ctx) × (r' ≡ r))
        ⊎ (IsKeyHolder M ctx.request r ctx'.api_key_id
            × (ctx' ≡ record ctx { api_key_id = ctx'.api_key_id }))
  unfolding authenticate
  authenticate_passed ctx ctx' r r' e p = elim (Bool-cases (is_public ctx.request.target)) [
    | inl open_path ↦ inl (open_path, ground arith, ground arith)
    | inr closed ↦ elim (List-cases (extract_bearer_token ctx.request)) [
      | inl missing ↦ absurd (
          ground
            (arith, reject_lem json 401 (bytes "auth_failed") (missing_message M json) ctx ctx'))
      | inr (c, t, present) ↦ inr (
          check_token_passed ctx ctx' (c ∷ t) r r'
            ((extract_bearer_token_iff ctx.request (c ∷ t) (λ h. cc)).0 present) (ground arith) p)
    ]
  ]

  -- Why the lookup of a token stops a request: it failed, or it found no enabled key.
  abbrev pub IsRefused : Context → ApiKeyResult → Context → Type 0
  IsRefused ctx res ctx' =
      ((res.db_error ≡ true) × IsRejected ctx 503 ctx')
      ⊎ ((res.db_error ≡ false) × (res.found ≡ false) × IsRejected ctx 401 ctx')

  admit_stopped :
      (ctx ctx' : Context) (res : ApiKeyResult) (r r' : Repository Db)
      → admit M json ctx res r ≡ (ok ctx', r')
      → ctx.terminated ≡ false
      → ctx'.terminated ≡ true
      → IsRefused ctx res ctx'
  unfolding admit
  admit_stopped ctx ctx' res r r' e h p = elim (Bool-cases res.db_error) [
    | inl broken ↦ inl (
      broken,
      reject_lem json 503 (bytes "service_unavailable") (bytes "服务暂时不可用, 请稍后重试") ctx ctx'
          (ground arith),
    )
    | inr working ↦ elim (Bool-cases res.found) [
      | inl found ↦ absurd (ground arith)
      | inr missing ↦ inr (
        working,
        missing,
        reject_lem json 401 (bytes "auth_failed") (bytes "API Key 无效或已被禁用") ctx ctx' (ground arith),
      )
    ]
  ]

  -- A request that the link stops has a path that is not public, and gets a response: 401 where its
  -- header holds no token; 503 where the lookup of the token failed; and 401 where it did not fail and
  -- found no enabled key. The key id stays as it was.
  pub authenticate_stopped :
      (ctx ctx' : Context) (r r' : Repository Db)
      → authenticate M json ctx r ≡ (ok ctx', r')
      → ctx.terminated ≡ false
      → ctx'.terminated ≡ true
      → (is_public ctx.request.target ≡ false)
        × (((extract_bearer_token ctx.request ≡ []) × IsRejected ctx 401 ctx')
            ⊎ ((res : ApiKeyResult) × ((find_api_key M (extract_bearer_token ctx.request) r).0
                  ≡ ok res)
                × IsRefused ctx res ctx'))
  unfolding authenticate check_token
  authenticate_stopped ctx ctx' r r' e h p = elim (Bool-cases (is_public ctx.request.target)) [
    | inl open_path ↦ absurd (ground arith)
    | inr closed ↦ elim (List-cases (extract_bearer_token ctx.request)) [
      | inl missing ↦ (
        closed,
        inl (
          missing,
          reject_lem json 401 (bytes "auth_failed") (missing_message M json) ctx ctx'
              (ground arith),
        ),
      )
      | inr (c, t, present) ↦
          elim (Result-cases (find_api_key M (extract_bearer_token ctx.request) r).0) [
            | inl (res, f) ↦ (
              closed,
              inr (
                res,
                f,
                admit_stopped ctx ctx' res (find_api_key M (extract_bearer_token ctx.request) r).1
                    r' (ground arith) h p,
              ),
            )
            | inr stopped ↦ absurd (ground arith)
          ]
    ]
  ]
