-- ===== src/Adapter/Chat.antt =====
-- `chat_completion` of src/adapter/openai_compatible_adapter.cpp and
-- src/adapter/anthropic_adapter.cpp: the requests to a provider that wait for the whole answer.
use ai_switch.Base.{
  Bool, true, false, List, [], ◌∷◌, ◌++◌, none, some, Bytes, bytes, str_eq, is_empty, if◌then◌else◌,
  ◌==◌,
}
use ai_switch.Base.Int.{pos}
use ai_switch.Base.Numbers.{to_string}
use ai_switch.Base.Result.{
  Exception, parse_error, type_error, runtime_error, invalid_argument, out_of_range,
  bad_optional_access, Result, ok, throw, fault, and_then, Eff, lift, ◌>>=◌,
}
use ai_switch.Json.{JsonLib}
use ai_switch.Adapter.{deepseek, openai, anthropic, Adapter}
use ai_switch.Adapter.Curl.{Outcome, Curl}

-- `e.what()`
abbrev pub what : Exception → Bytes
what (parse_error m) = m
what (type_error m) = m
what (runtime_error m) = m
what (invalid_argument m) = m
what (out_of_range m) = m
what (bad_optional_access m) = m

-- What `write_callback` has gathered.
abbrev pub gathered : List Bytes → Bytes
gathered [] = []
gathered (x ∷ xs) = x ++ gathered xs

abbrev pub content_type : Bytes
content_type = bytes "Content-Type: application/json"

-- The last argument of the constructor, which main.cpp leaves at its default.
abbrev pub anthropic_version : Bytes
anthropic_version = bytes "2023-06-01"

unfoldable pub request_headers : Adapter → List Bytes
request_headers ai = elim ai.provider [
  | deepseek ↦ content_type ∷ (bytes "Authorization: Bearer " ++ ai.api_key) ∷ []
  | openai ↦ content_type ∷ (bytes "Authorization: Bearer " ++ ai.api_key) ∷ []
  | anthropic ↦
      content_type
      ∷ (bytes "x-api-key: " ++ ai.api_key)
      ∷ (bytes "anthropic-version: " ++ anthropic_version)
      ∷ []
]

unfoldable pub http_result : Outcome → Result Bytes
http_result out = elim out.error [
  | some e ↦ throw (runtime_error (bytes "HTTP 请求失败: " ++ e))
  | none ↦
      if out.http_code == 200
      then ok (gathered out.pieces)
      else throw (
          runtime_error (
            bytes "API 返回错误 (HTTP "
            ++ to_string (pos out.http_code)
            ++ bytes "): "
            ++ gathered out.pieces))
]

module _ (C : Curl) where
  open C use {Net, init, perform}

  unfoldable pub perform_post : Adapter → Bytes → Bytes → Eff Net Bytes
  perform_post ai url body net =
      let (out, net') =
        perform (record { url = url; headers = request_headers ai; body = body }) net in
      (http_result out, net')

  unfoldable pub http_post : Adapter → Bytes → Bytes → Eff Net Bytes
  http_post ai url body net =
      let (made, net') = init net in
      if made
      then perform_post ai url body net'
      else (throw (runtime_error (bytes "初始化 libcurl 失败")), net')

module _ (json : JsonLib) where
  open json use {
    Json, literal, parse, dump, object, array, string, int, bool, double, value_string, value_int,
    value_double, contains, is_array, const_member, member, elements,
  }

  -- `openai_compatible_adapter::build_request_body`
  unfoldable pub openai_body : Adapter → Json → Bool → Result Json
  openai_body ai request stream =
      and_then (value_string request (bytes "model") ai.default_model) λ model.
        and_then (const_member request (bytes "messages")) λ messages.
          and_then (value_double request (bytes "temperature") (literal (bytes "0.7")))
            λ temperature.
              and_then (value_int request (bytes "max_tokens") (pos 2048)) λ max_tokens. ok (
                object (
                  (bytes "model", string model)
                  ∷ (bytes "messages", messages)
                  ∷ (bytes "temperature", double temperature)
                  ∷ (bytes "max_tokens", int max_tokens)
                  ∷ (bytes "stream", bool stream)
                  ∷ []))

  -- The messages that are no system messages, and the text of those that are.
  pub record Sorted : Type 0 where
    pub messages : List Json
    pub system_prompt : Bytes

  abbrev pub add_system : Bytes → Sorted → Sorted
  add_system content acc = record acc {
    system_prompt =
        (if is_empty acc.system_prompt then [] else acc.system_prompt ++ bytes "\n") ++ content;
  }

  unfoldable pub sort_messages : List Json → Sorted → Result Sorted
  sort_messages [] acc = ok acc
  sort_messages (msg ∷ msgs) acc = and_then (value_string msg (bytes "role") (bytes "user")) λ role.
      elim (str_eq role (bytes "system")) [
        | true ↦
            and_then (value_string msg (bytes "content") [])
              λ content. sort_messages msgs (add_system content acc)
        | false ↦ sort_messages msgs (record acc { messages = acc.messages ++ msg ∷ [] })
      ]

  abbrev messages_of : Json → Result (List Json)
  messages_of request = elim (contains request (bytes "messages")) [
    | true ↦ and_then (const_member request (bytes "messages")) λ messages. ok (elements messages)
    | false ↦ ok []
  ]

  abbrev system_field : Bytes → List (Bytes × Json)
  system_field s = if is_empty s then [] else (bytes "system", string s) ∷ []

  -- `anthropic_adapter::build_request_body`
  unfoldable pub anthropic_body : Adapter → Json → Bool → Result Json
  anthropic_body ai request stream =
      and_then (value_string request (bytes "model") ai.default_model) λ model.
        and_then (value_int request (bytes "max_tokens") (pos 2048)) λ max_tokens.
          and_then (value_double request (bytes "temperature") (literal (bytes "0.7")))
            λ temperature. and_then (messages_of request) λ msgs.
              and_then (sort_messages msgs (record { messages = []; system_prompt = [] })) λ sorted.
                ok (
                  object (
                    (bytes "model", string model)
                    ∷ (bytes "max_tokens", int max_tokens)
                    ∷ (bytes "temperature", double temperature)
                    ∷ (bytes "stream", bool stream)
                    ∷ (bytes "messages", array sorted.messages)
                    ∷ system_field sorted.system_prompt))

  unfoldable pub build_request_body : Adapter → Json → Bool → Result Json
  build_request_body ai request stream = elim ai.provider [
    | deepseek ↦ openai_body ai request stream
    | openai ↦ openai_body ai request stream
    | anthropic ↦ anthropic_body ai request stream
  ]

  unfoldable pub parse_failure : Bytes → Json
  parse_failure message = object (
      (
        bytes "error",
        object (
            (bytes "code", string (bytes "parse_error"))
            ∷ (bytes "message", string (bytes "解析 AI 响应失败: " ++ message))
            ∷ []),
      )
      ∷ [])

  -- The `catch` of both adapters: other exceptions pass.
  abbrev pub or_parse_failure : Result Json → Result Json
  or_parse_failure (throw (parse_error m)) = ok (parse_failure m)
  or_parse_failure (throw (type_error m)) = throw (type_error m)
  or_parse_failure (throw (runtime_error m)) = throw (runtime_error m)
  or_parse_failure (throw (invalid_argument m)) = throw (invalid_argument m)
  or_parse_failure (throw (out_of_range m)) = throw (out_of_range m)
  or_parse_failure (throw (bad_optional_access m)) = throw (bad_optional_access m)
  or_parse_failure fault = fault
  or_parse_failure (ok j) = ok j

  -- The text blocks of an answer of Anthropic, joined.
  unfoldable pub text_blocks : List Json → Bytes → Result Bytes
  text_blocks [] text = ok text
  text_blocks (block ∷ blocks) text = and_then (value_string block (bytes "type") []) λ kind.
      elim (str_eq kind (bytes "text")) [
        | true ↦
            and_then (value_string block (bytes "text") [])
              λ more. text_blocks blocks (text ++ more)
        | false ↦ text_blocks blocks text
      ]

  abbrev content_of : Json → Result (List Json)
  content_of resp = elim (contains resp (bytes "content")) [
    | true ↦
        and_then (member resp (bytes "content"))
          λ content. if is_array content then ok (elements content) else ok []
    | false ↦ ok []
  ]

  -- An answer of Anthropic in the form of one of OpenAI.
  unfoldable pub openai_style : Json → Result Json
  openai_style resp = and_then (content_of resp) λ blocks. and_then (text_blocks blocks []) λ text.
      and_then (value_string resp (bytes "id") []) λ id.
        and_then (value_string resp (bytes "model") []) λ model.
          and_then (value_string resp (bytes "stop_reason") (bytes "stop")) λ reason. ok (
            object (
              (bytes "id", string id)
              ∷ (bytes "model", string model)
              ∷ (
                bytes "choices",
                array (
                    object (
                      (bytes "index", int (pos 0))
                      ∷ (
                        bytes "message",
                        object (
                            (bytes "role", string (bytes "assistant"))
                            ∷ (bytes "content", string text)
                            ∷ []),
                      )
                      ∷ (bytes "finish_reason", string reason)
                      ∷ [])
                    ∷ []),
              )
              ∷ []))

  unfoldable pub convert : Json → Result Json
  convert resp = elim (contains resp (bytes "error")) [
    | true ↦ and_then (member resp (bytes "error")) λ e. ok (object ((bytes "error", e) ∷ []))
    | false ↦ openai_style resp
  ]

  unfoldable pub read_answer : Adapter → Bytes → Result Json
  read_answer ai text = elim ai.provider [
    | deepseek ↦ or_parse_failure (parse text)
    | openai ↦ or_parse_failure (parse text)
    | anthropic ↦ or_parse_failure (and_then (parse text) convert)
  ]

  unfoldable pub chat_url : Adapter → Bytes
  chat_url ai = elim ai.provider [
    | deepseek ↦ ai.base_url ++ bytes "/chat/completions"
    | openai ↦ ai.base_url ++ bytes "/chat/completions"
    | anthropic ↦ ai.base_url ++ bytes "/messages"
  ]

  unfoldable pub chat_completion : (C : Curl) → Adapter → Json → Eff C.Net Json
  chat_completion C ai request = do
    body ← lift (build_request_body ai request false)
    text ← lift (dump body)
    answer ← http_post C ai (chat_url ai) text
    lift (read_answer ai answer)
