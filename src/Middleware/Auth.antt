-- ===== src/Middleware/Auth.antt =====
-- src/middleware/auth_middleware.h and src/middleware/auth_middleware.cpp
pub mod Laws
pub mod Created
pub mod Revoked
use ai_switch.Base.{
  ℕ, zero, suc, Bool, true, false, ◌||◌, not, List, [], ◌∷◌, ◌++◌, Option, none, some, Bytes, bytes,
  str_eq, is_empty, find, at_front, take, drop, length, leb, if◌then◌else◌,
}
use ai_switch.Base.Result.{Eff, return, lift, ◌>>=◌, continue}
use ai_switch.Json.{JsonLib}
use ai_switch.Http.{Request, Response}
use ai_switch.Database.Mysql.{Mysql}
use ai_switch.Database.Repository.{Repository, ApiKeyResult, find_api_key}
use ai_switch.Middleware.{Context, Middleware, reject}

abbrev pub bearer : Bytes
bearer = bytes "Bearer "

-- The text behind the prefix; empty where there is none.
unfoldable pub bearer_of : Bytes → Bytes
bearer_of auth_value =
    if leb (length auth_value) (length bearer)
      || not (str_eq (take (length bearer) auth_value) bearer)
    then []
    else drop (length bearer) auth_value

unfoldable pub extract_bearer_token : Request → Bytes
extract_bearer_token req = elim req.authorization [ none ↦ [] | some value ↦ bearer_of value ]

-- The paths that need no API key.
unfoldable pub is_public : Bytes → Bool
is_public target = str_eq target (bytes "/health") || at_front (find (bytes "/admin/") target)

module _ (M : Mysql) (json : JsonLib) where
  open M use {Db}

  -- What follows the lookup.
  unfoldable pub admit : Context → ApiKeyResult → Eff (Repository Db) Context
  admit ctx result =
      if result.db_error
      then lift (reject json 503 (bytes "service_unavailable") (bytes "服务暂时不可用, 请稍后重试") ctx)
      else if not result.found
      then lift (reject json 401 (bytes "auth_failed") (bytes "API Key 无效或已被禁用") ctx)
      else return (record ctx { api_key_id = result.info.id })

  unfoldable pub check_token : Context → Bytes → Eff (Repository Db) Context
  check_token ctx token = do result ← find_api_key M token; admit ctx result

  abbrev pub missing_message : Bytes
  missing_message = bytes "缺少有效的 Authorization 头, 格式: Bearer <api_key>"

  unfoldable pub authenticate : Middleware (Repository Db)
  authenticate ctx =
      if is_public ctx.request.target
      then return ctx
      else if is_empty (extract_bearer_token ctx.request)
      then lift (reject json 401 (bytes "auth_failed") missing_message ctx)
      else check_token ctx (extract_bearer_token ctx.request)
