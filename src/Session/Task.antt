-- ===== src/Session/Task.antt =====
-- The task that `session::handle_request` submits to the thread pool (src/server/session.cpp, lines
-- 114-135): the call of the adapter, and what it posts to the event loop.
pub mod Answered
pub mod Ended
use ai_switch.Base.{
  ◌≡◌, refl, ap, ◌∙◌, Bool, true, false, List, [], ◌∷◌, ◌++◌, Option, none, some, Bytes, arith,
}
use ai_switch.Base.Result.{Exception, Result, ok, throw, fault}
use ai_switch.Json.{JsonLib}
use ai_switch.Sse.{make_done_chunk}
use ai_switch.Adapter.{Provider, deepseek, openai, anthropic, Adapter}
use ai_switch.Adapter.Curl.{Curl}
use ai_switch.Adapter.Chat.{what}
use ai_switch.Adapter.Streaming.{Call, chat_completion_stream}
use ai_switch.Adapter.Anthropic.Transfer.{chat_completion_stream as anthropic_stream}
use ai_switch.Session.{Session, send_stream_chunk}
use ai_switch.Session.Delivery.{
  Posted, chunk, failure, error_event, started, handler_writes, deliver,
}
use ai_switch.Session.Delivery.Order.{deliver-append}

-- The handlers that are posted for the calls.
abbrev pub posts : List Call → List Posted
posts [] = []
posts (c ∷ cs) = chunk c ∷ posts cs

-- The `catch`.
abbrev pub caught : Result (Unit {0}) → Result (List Posted)
caught (ok _) = ok []
caught (throw e) = ok (failure (what e) ∷ [])
caught fault = fault

abbrev pub after_calls : List Call → Result (List Posted) → Result (List Posted)
after_calls calls (ok more) = ok (posts calls ++ more)
after_calls calls (throw e) = throw e
after_calls calls fault = fault

failure_lem :
    (s : Session) (message : Bytes)
    → s.stream_headers_sent ≡ true
    → deliver (failure message ∷ []) s ≡ error_event message ∷ make_done_chunk ∷ []
unfolding deliver handler_writes started send_stream_chunk
failure_lem s message header = ground arith

module _ (json : JsonLib) (C : Curl) where
  open json use {Json}
  open C use {Net}

  -- The virtual `chat_completion_stream`.
  unfoldable pub adapter_stream : Adapter → Json → Net → (Result (Unit {0}) × List Call) × Net
  adapter_stream ai body net = elim ai.provider [
    | deepseek ↦ chat_completion_stream json C ai body net
    | openai ↦ chat_completion_stream json C ai body net
    | anthropic ↦ anthropic_stream json C ai body net
  ]

  unfoldable pub stream_task : Adapter → Json → Net → Result (List Posted) × Net
  stream_task ai body net =
      let ((r, calls), net') = adapter_stream ai body net in (after_calls calls (caught r), net')

  -- Where the adapter throws, the client of a session whose header is sent gets the chunks of the calls
  -- made before, then an event with the text of the exception, then the end mark.
  pub stream_task-failed :
      (ai : Adapter) (body : Json) (net : Net) (s : Session) (e : Exception) (calls : List Call)
      (ps : List Posted)
      → s.stream_headers_sent ≡ true
      → (adapter_stream ai body net).0 ≡ (throw e, calls)
      → (stream_task ai body net).0 ≡ ok ps
      → deliver ps s ≡ deliver (posts calls) s ++ error_event (what e) ∷ make_done_chunk ∷ []
  unfolding stream_task
  stream_task-failed ai body net s e calls ps header thrown posted =
      let same : ps ≡ posts calls ++ failure (what e) ∷ [] = ground arith in
      ap (λ l. deliver l s) same
      ∙ deliver-append (posts calls) (failure (what e) ∷ []) s
      ∙ ap (λ l. deliver (posts calls) s ++ l) (failure_lem s (what e) header)
