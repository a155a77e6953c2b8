-- ===== src/Adapter/Anthropic/Transfer.antt =====
-- The streaming requests of src/adapter/anthropic_adapter.cpp. The file does not compile; this follows
-- it where its names can be read in one way only: `is_done()` as the parser's `done`.
use ai_switch.Base.{
  true, List, [], ◌∷◌, ◌++◌, Option, none, some, Bytes, bytes, if◌then◌else◌, ◌≡◌, ◌≢◌, arith,
  List-cases, inl, inr,
}
use ai_switch.Base.Result.{Result, ok, throw, fault, and_then, runtime_error}
use ai_switch.Json.{JsonLib}
use ai_switch.Adapter.{Adapter}
use ai_switch.Adapter.Curl.{Curl}
use ai_switch.Adapter.Chat.{request_headers, anthropic_body}
use ai_switch.Adapter.Streaming.{Call, done_call, content_calls, stream_result}
use ai_switch.Adapter.Anthropic.{Parser, feed}

-- `write_callback`, which `http_post_stream` registers, is handed a `stream_callback_data` and appends
-- to it as to a string: undefined, if there is a piece at all.
unfoldable pub written_over : List Bytes → Result (Unit {0})
written_over [] = ok tt
written_over (piece ∷ pieces) = fault

module _ (json : JsonLib) where
  open json use {Json, dump}

  abbrev pub calls_of : Parser × List Bytes → Parser × List Call
  calls_of (p, texts) = (p, content_calls texts ++ (if p.done then done_call ∷ [] else []))

  -- `stream_write_callback`, which nothing calls.
  unfoldable pub stream_write_callback : Parser → Bytes → Option (Parser × List Call)
  stream_write_callback p raw = elim (feed json p raw) [
    | none ↦ none
    | some fed ↦ some (calls_of fed)
  ]

  module _ (C : Curl) where
    open C use {Net, init, perform}

    unfoldable pub perform_stream :
        Adapter → Bytes → Bytes → Net → (Result (Unit {0}) × List Call) × Net
    perform_stream ai url body net =
        let (out, net') =
          perform (record { url = url; headers = request_headers ai; body = body }) net in
        ((and_then (written_over out.pieces) λ _. stream_result out, []), net')

    -- `http_post_stream`, with the calls that were made.
    unfoldable pub http_post_stream :
        Adapter → Bytes → Bytes → Net → (Result (Unit {0}) × List Call) × Net
    http_post_stream ai url body net =
        let (made, net') = init net in
        if made
        then perform_stream ai url body net'
        else ((throw (runtime_error (bytes "初始化 libcurl 失败")), done_call ∷ []), net')

    -- The URL has no slash behind the base.
    abbrev pub stream_url : Adapter → Bytes
    stream_url ai = ai.base_url ++ bytes "messages"

    abbrev post_dumped : Adapter → Result Bytes → Net → (Result (Unit {0}) × List Call) × Net
    post_dumped ai (ok text) net = http_post_stream ai (stream_url ai) text net
    post_dumped ai (throw e) net = ((throw e, []), net)
    post_dumped ai fault net = ((fault, []), net)

    -- `anthropic_adapter::chat_completion_stream`
    unfoldable pub chat_completion_stream :
        Adapter → Json → Net → (Result (Unit {0}) × List Call) × Net
    chat_completion_stream ai request net =
        post_dumped ai (and_then (anthropic_body json ai request true) dump) net

    -- A streaming request to Anthropic that reaches the provider is undefined as soon as the provider
    -- answers with anything, and no call is made.
    pub anthropic_stream_undefined :
        (ai : Adapter) (request body : Json) (text : Bytes) (net : Net)
        → anthropic_body json ai request true ≡ ok body
        → dump body ≡ ok text
        → (init net).0 ≡ true
        → (perform
            (record { url = stream_url ai; headers = request_headers ai; body = text })
            (init net).1).0.pieces
          ≢ []
        → (chat_completion_stream ai request net).0 ≡ (fault, [])
    unfolding chat_completion_stream http_post_stream perform_stream written_over
    anthropic_stream_undefined ai request body text net built dumped made answered =
        elim (List-cases
          (perform (record { url = stream_url ai; headers = request_headers ai; body = text })
            (init net).1).0.pieces) [
              | inl empty ↦ absurd (answered empty)
              | inr (p, ps, some_piece) ↦ ground arith
            ]
