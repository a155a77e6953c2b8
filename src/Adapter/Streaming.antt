-- ===== src/Adapter/Streaming.antt =====
-- `stream_write_callback` and `http_post_stream` of src/adapter/openai_compatible_adapter.cpp: the
-- calls of the session's callback while a provider streams.
pub mod Laws
use ai_switch.Base.{
  ℕ, Bool, true, false, List, [], ◌∷◌, ◌++◌, Option, none, some, Bytes, bytes, if◌then◌else◌, ◌==◌,
}
use ai_switch.Base.Int.{pos}
use ai_switch.Base.Numbers.{to_string}
use ai_switch.Base.Result.{Result, ok, throw, fault, and_then, runtime_error}
use ai_switch.Json.{JsonLib}
use ai_switch.Sse.{SseHandler, fresh, feed}
use ai_switch.Adapter.{Adapter}
use ai_switch.Adapter.Curl.{Transfer, Outcome, Curl}
use ai_switch.Adapter.Chat.{request_headers, chat_url, openai_body}

-- The two arguments of a call.
pub record Call : Type 0 where
  pub content : Bytes
  pub done : Bool

abbrev pub done_call : Call
done_call = record { content = []; done = true }

abbrev pub content_call : Bytes → Call
content_call s = record { content = s; done = false }

abbrev pub content_list : Option Bytes → List Bytes
content_list none = []
content_list (some s) = s ∷ []

abbrev pub content_calls : List Bytes → List Call
content_calls [] = []
content_calls (s ∷ r) = content_call s ∷ content_calls r

-- What a transfer that streams comes to; the pieces were handled on the way.
abbrev pub status_result : ℕ → Result (Unit {0})
status_result code =
    if code == 200
    then ok tt
    else throw (runtime_error (bytes "API 返回错误 (HTTP " ++ to_string (pos code) ++ bytes ")"))

unfoldable pub stream_result : Outcome → Result (Unit {0})
stream_result out = elim out.error [
  | none ↦ status_result out.http_code
  | some e ↦
      if out.write_error
      then status_result out.http_code
      else throw (runtime_error (bytes "HTTP 请求失败: " ++ e))
]

module _ (json : JsonLib) where
  open json use {Json, parse, dump, contains, empty, member, element, get_string}

  -- `choices[0].delta.content`, `none` where a part is missing.
  unfoldable pub delta_content : Json → Result (Option Bytes)
  delta_content chunk = and_then (member chunk (bytes "choices")) λ choices. elim (empty choices) [
    | true ↦ ok none
    | false ↦ and_then (element choices 0) λ first. elim (contains first (bytes "delta")) [
      | false ↦ ok none
      | true ↦ and_then (member first (bytes "delta")) λ delta.
          elim (contains delta (bytes "content")) [
            | false ↦ ok none
            | true ↦
                and_then (member delta (bytes "content"))
                  λ c. and_then (get_string c) λ s. ok (some s)
          ]
    ]
  ]

  -- What `catch (...)` skips gives no content. Undefined behaviour of the library inside the try block, which
  -- nothing catches, is taken for an exception here.
  unfoldable pub content_of : Bytes → List Bytes
  content_of msg = elim (and_then (parse msg) delta_content) [
    | ok content ↦ content_list content
    | throw e ↦ []
    | fault ↦ []
  ]

  unfoldable pub contents : List Bytes → List Bytes
  contents [] = []
  contents (msg ∷ msgs) = content_of msg ++ contents msgs

  abbrev pub calls_of : SseHandler × List Bytes → SseHandler × List Call
  calls_of (h, msgs) = (h, content_calls (contents msgs) ++ (if h.done then done_call ∷ [] else []))

  -- One call by libcurl, with the handler after it.
  unfoldable pub stream_write_callback : SseHandler → Bytes → Option (SseHandler × List Call)
  stream_write_callback h raw = elim (feed h raw) [ none ↦ none | some fed ↦ some (calls_of fed) ]

  abbrev pub before : List Call → Option (SseHandler × List Call) → Option (SseHandler × List Call)
  before calls none = none
  before calls (some (h, more)) = some (h, calls ++ more)

  -- The calls by libcurl for the pieces of a body.
  unfoldable pub write_all : SseHandler → List Bytes → Option (SseHandler × List Call)
  write_all h [] = some (h, [])
  write_all h (raw ∷ raws) = elim (stream_write_callback h raw) [
    | none ↦ none
    | some (h', calls) ↦ before calls (write_all h' raws)
  ]

  abbrev pub with_result :
      Result (Unit {0}) → Option (SseHandler × List Call) → Result (Unit {0}) × List Call
  with_result r none = (fault, [])
  with_result r (some (h, calls)) = (r, calls)

  module _ (C : Curl) where
    open C use {Net, init, perform}

    unfoldable pub perform_stream :
        Adapter → Bytes → Bytes → Net → (Result (Unit {0}) × List Call) × Net
    perform_stream ai url body net =
        let (out, net') =
          perform (record { url = url; headers = request_headers ai; body = body }) net in
        (with_result (stream_result out) (write_all fresh out.pieces), net')

    -- `http_post_stream`, with the calls that were made.
    unfoldable pub http_post_stream :
        Adapter → Bytes → Bytes → Net → (Result (Unit {0}) × List Call) × Net
    http_post_stream ai url body net =
        let (made, net') = init net in
        if made
        then perform_stream ai url body net'
        else ((throw (runtime_error (bytes "初始化 libcurl 失败")), done_call ∷ []), net')

    abbrev post_dumped : Adapter → Result Bytes → Net → (Result (Unit {0}) × List Call) × Net
    post_dumped ai (ok text) net = http_post_stream ai (chat_url json ai) text net
    post_dumped ai (throw e) net = ((throw e, []), net)
    post_dumped ai fault net = ((fault, []), net)

    -- `openai_compatible_adapter::chat_completion_stream`
    unfoldable pub chat_completion_stream :
        Adapter → Json → Net → (Result (Unit {0}) × List Call) × Net
    chat_completion_stream ai request net =
        post_dumped ai (and_then (openai_body json ai request true) dump) net
