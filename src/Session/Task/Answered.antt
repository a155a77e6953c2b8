-- ===== src/Session/Task/Answered.antt =====
-- What the task posts where a provider answers.
use ai_switch.Base.{◌≡◌, ap, ◌∙◌, ◌⊎◌, inl, inr, true, List, some, Bytes, arith, append-nil}
use ai_switch.Base.Result.{ok}
use ai_switch.Json.{JsonLib}
use ai_switch.Sse.{SseHandler, fresh}
use ai_switch.Adapter.{Adapter, deepseek, openai}
use ai_switch.Adapter.Curl.{Outcome, Curl}
use ai_switch.Adapter.Chat.{openai_body, chat_url, request_headers}
use ai_switch.Adapter.Streaming.{
  Call, write_all, stream_result, perform_stream, http_post_stream, chat_completion_stream,
}
use ai_switch.Session.Task.{posts, adapter_stream, stream_task}

-- A provider of the OpenAI kind has been asked, and has answered with status 200 in these pieces; an
-- error while they were written is let pass.
pub record IsAnswered (json : JsonLib) (C : Curl) (ai : Adapter) (request : json.Json) (net : C.Net)
    (pieces : List Bytes) : Type 0 where
  pub kind : (ai.provider ≡ deepseek) ⊎ (ai.provider ≡ openai)
  pub body : json.Json
  pub built : openai_body json ai request true ≡ ok body
  pub text : Bytes
  pub dumped : json.dump body ≡ ok text
  pub made : (C.init net).0 ≡ true
  pub outcome : Outcome
  pub performed :
      (C.perform
        (record { url = chat_url json ai; headers = request_headers ai; body = text })
        (C.init net).1).0
      ≡ outcome
  pub accepted : stream_result outcome ≡ ok tt
  pub came : outcome.pieces ≡ pieces

-- The adapters of this kind share `chat_completion_stream`.
pub adapter_stream_lem :
    (json : JsonLib) (C : Curl) (ai : Adapter) (request : json.Json) (net : C.Net)
    → (ai.provider ≡ deepseek) ⊎ (ai.provider ≡ openai)
    → adapter_stream json C ai request net ≡ chat_completion_stream json C ai request net
unfolding adapter_stream
adapter_stream_lem json C ai request net (inl e) = ground arith
adapter_stream_lem json C ai request net (inr e) = ground arith

module _ (json : JsonLib) (C : Curl) (ai : Adapter) (request : json.Json) (net : C.Net)
    (pieces : List Bytes) (h : SseHandler) (calls : List Call)
    (a : IsAnswered json C ai request net pieces)
    (called : write_all json fresh pieces ≡ some (h, calls)) where
  performed_lem :
      (perform_stream json C ai (chat_url json ai) a.text (C.init net).1).0 ≡ (ok tt, calls)
  unfolding perform_stream
  performed_lem =
      let written : write_all json fresh a.outcome.pieces ≡ some (h, calls) =
        ap (write_all json fresh) a.came ∙ called in
      rw (a.performed, a.accepted) (ground arith)

  chat_completion_stream_lem : (chat_completion_stream json C ai request net).0 ≡ (ok tt, calls)
  unfolding chat_completion_stream http_post_stream
  chat_completion_stream_lem = rw (a.built, a.dumped, a.made) performed_lem

  pub stream_task-answered : (stream_task json C ai request net).0 ≡ ok (posts calls)
  unfolding stream_task
  stream_task-answered =
      rw (adapter_stream_lem json C ai request net a.kind)
        (ground (arith, chat_completion_stream_lem, append-nil (posts calls)))
