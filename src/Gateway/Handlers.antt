-- ===== src/Gateway/Handlers.antt =====
-- The handlers that src/main.cpp registers, and the routes that it makes of them.
use ai_switch.Base.{
  ℕ, Bool, true, false, not, List, [], ◌∷◌, ◌++◌, none, some, Bytes, bytes, str_eq, is_empty,
  if◌then◌else◌, ◌==◌,
}
use ai_switch.Base.Int.{ℤ, pos, leb_ℤ}
use ai_switch.Base.Numbers.{to_string}
use ai_switch.Base.Result.{
  parse_error, type_error, runtime_error, invalid_argument, out_of_range, bad_optional_access,
  Result, ok, throw, fault, and_then, Eff, lift, ◌>>=◌,
}
use ai_switch.Json.{JsonLib}
use ai_switch.Http.{Request, Response}
use ai_switch.Router.{Handler, Routes, add_route, make_json_response, make_error_response}
use ai_switch.Database.Mysql.{Mysql}
use ai_switch.Database.Repository.{ApiKeyInfo, create_api_key, list_api_keys, disable_api_key}
use ai_switch.Adapter.{Adapter}
use ai_switch.Adapter.Curl.{Curl}
use ai_switch.Adapter.Chat.{what, chat_completion}
use ai_switch.Adapter.Factory.{create, count}
use ai_switch.Gateway.{World, with_repo, with_net}

-- `verify_admin`
unfoldable pub verify_admin : Bytes → Request → Bool
verify_admin master_key req = elim req.authorization [
  | none ↦ false
  | some val ↦ str_eq val (bytes "Bearer " ++ master_key)
]

module _ (json : JsonLib) where
  open json use {
    Json, parse, dump, object, array, string, int, bool, value_string, value_int, value_int64,
  }

  -- `make_json_response(value.dump(), …)`
  unfoldable pub dumped : Json → Request → Result Response
  dumped value req =
      and_then (dump value) λ text. ok (make_json_response text req.version req.keep_alive)

  unfoldable pub failure : ℕ → Bytes → Bytes → Request → Result Response
  failure status code message req =
      make_error_response json status code message req.version req.keep_alive

  unfoldable pub handle_health : Request → Result Response
  handle_health req =
      dumped
        (object (
          (bytes "status", string (bytes "ok"))
          ∷ (bytes "version", string (bytes "1.0.0"))
          ∷ (bytes "service", string (bytes "AI-switch"))
          ∷ []))
        req

  abbrev pub unauthorized : Request → Result Response
  unauthorized = failure 401 (bytes "auth_failed") (bytes "无效的管理 Key")

  abbrev pub key_object : ApiKeyInfo → Json
  key_object k = object (
      (bytes "id", int k.id)
      ∷ (bytes "api_key", string k.api_key)
      ∷ (bytes "name", string k.name)
      ∷ (bytes "rate_limit", int k.rate_limit)
      ∷ (bytes "enabled", bool k.enabled)
      ∷ [])

  abbrev pub created_object : ApiKeyInfo → Json
  created_object key = object (
      (bytes "api_key", string key.api_key)
      ∷ (bytes "name", string key.name)
      ∷ (bytes "rate_limit", int key.rate_limit)
      ∷ [])

  abbrev pub key_objects : List ApiKeyInfo → List Json
  key_objects [] = []
  key_objects (k ∷ ks) = key_object k ∷ key_objects ks

  -- The part of a handler behind `catch (...)` around the parser of the body.
  unfoldable pub parsed_or {ℓ} :
      {S : Type 0} {A : Type ℓ} → Result A → Result Json → (Json → Eff S A) → Eff S A
  parsed_or bad (ok body) f = f body
  parsed_or bad (throw e) f = lift bad
  parsed_or bad fault f = lift fault

  module _ (M : Mysql) (C : Curl) where
    abbrev W : Type 0
    W = World M.Db C.Net

    -- `catch (const std::exception&)` around the call of the provider and the response.
    unfoldable pub or_provider_error : Request → Result Response → Result Response
    or_provider_error req (ok res) = ok res
    or_provider_error req (throw e) =
        failure 502 (bytes "provider_error") (bytes "AI 服务响应错误: " ++ what e) req
    or_provider_error req fault = fault

    unfoldable pub call_provider : Adapter → Json → Request → Eff C.Net Response
    call_provider ai body req net =
        let (answer, net') = chat_completion json C ai body net in
        (or_provider_error req (and_then answer λ value. dumped value req), net')

    unfoldable pub chat_with : List Adapter → Json → Request → Eff W Response
    chat_with adapters body req =
        if count adapters == 0
        then lift (failure 503 (bytes "no_ai_configured") (bytes "服务未配置任何 AI 模型, 请先设置 API Key") req)
        else do
          model ← lift (value_string body (bytes "model") (bytes "deepseek-v4-flash"))
          elim (create adapters model) [
            | none ↦ lift (failure 400 (bytes "unsupported_model") (bytes "不支持的模型: " ++ model) req)
            | some ai ↦ with_net M C json (call_provider ai body req)
          ]

    -- POST /api/chat: only a parse error is caught at the body.
    unfoldable pub handle_chat : List Adapter → Handler W
    handle_chat adapters req = elim (parse req.body) [
      | ok body ↦ chat_with adapters body req
      | throw (parse_error m) ↦
          lift (failure 400 (bytes "invalid_json") (bytes "请求体不是合法的 JSON: " ++ m) req)
      | throw (type_error m) ↦ lift (throw (type_error m))
      | throw (runtime_error m) ↦ lift (throw (runtime_error m))
      | throw (invalid_argument m) ↦ lift (throw (invalid_argument m))
      | throw (out_of_range m) ↦ lift (throw (out_of_range m))
      | throw (bad_optional_access m) ↦ lift (throw (bad_optional_access m))
      | fault ↦ lift fault
    ]

    unfoldable pub create_named : List ℕ → Json → Request → Eff W Response
    create_named drawn body req = do
      name ← lift (value_string body (bytes "name") [])
      limit ← lift (value_int body (bytes "rate_limit") (pos 60))
      elim (is_empty name) [
        | true ↦ lift (failure 400 (bytes "missing_name") (bytes "缺少 name 字段") req)
        | false ↦ (do
          key ← with_repo M C json (create_api_key M drawn name limit)
          lift (dumped (created_object key) req))
      ]

    -- POST /admin/api-keys, with the numbers that the random generator draws.
    unfoldable pub handle_create : Bytes → List ℕ → Handler W
    handle_create master_key drawn req =
        if not (verify_admin master_key req)
        then lift (unauthorized req)
        else parsed_or (failure 400 (bytes "invalid_json") (bytes "请求体不是合法 JSON") req)
            (parse req.body) (λ body. create_named drawn body req)

    -- GET /admin/api-keys
    unfoldable pub handle_list : Bytes → Handler W
    handle_list master_key req =
        if not (verify_admin master_key req) then lift (unauthorized req) else (do
          keys ← with_repo M C json (list_api_keys M)
          lift (dumped (array (key_objects keys)) req))

    abbrev pub no_such_key : ℤ → Bytes
    no_such_key id = bytes "未找到 id=" ++ to_string id ++ bytes " 的 Key"

    unfoldable pub disable_id : ℤ → Request → Eff W Response
    disable_id id req = do
      disabled ← with_repo M C json (disable_api_key M id)
      elim disabled [
        | true ↦ lift (
            dumped
              (object ((bytes "status", string (bytes "disabled")) ∷ (bytes "id", int id) ∷ []))
              req)
        | false ↦ lift (failure 404 (bytes "not_found") (no_such_key id) req)
      ]

    unfoldable pub disable_named : Json → Request → Eff W Response
    disable_named body req = do
      id ← lift (value_int64 body (bytes "id") (pos 0))
      elim (leb_ℤ id (pos 0)) [
        | true ↦ lift (failure 400 (bytes "invalid_id") (bytes "请传有效的 id") req)
        | false ↦ disable_id id req
      ]

    -- DELETE /admin/api-keys
    unfoldable pub handle_disable : Bytes → Handler W
    handle_disable master_key req =
        if not (verify_admin master_key req)
        then lift (unauthorized req)
        else parsed_or (failure 400 (bytes "invalid_json") (bytes "请传 {\"id\": N}") req)
            (parse req.body) (λ body. disable_named body req)

    abbrev pub admin_path : Bytes
    admin_path = bytes "/admin/api-keys"

    -- The routes in the order in which they are added.
    unfoldable pub all_routes : List Adapter → Bytes → List ℕ → Routes W
    all_routes adapters master_key drawn =
        add_route (bytes "DELETE") admin_path (handle_disable master_key) (
          add_route (bytes "GET") admin_path (handle_list master_key) (
            add_route (bytes "POST") admin_path (handle_create master_key drawn) (
              add_route (bytes "POST") (bytes "/api/chat") (handle_chat adapters)
                (add_route (bytes "GET") (bytes "/health") (λ req. lift (handle_health req)) []))))
