-- ===== src/Session/Task/Ended.antt =====
-- When the handlers of a task end the client's stream.
use ai_switch.Base.{
  ◌≡◌, refl, sym, ap, ◌∙◌, ◌⊎◌, inl, inr, ◌↔◌, Bool, true, false, ◌||◌, List, [], ◌∷◌, ◌++◌, some,
  Bytes, arith, append-nil, Bool-cases, Option-cases,
}
use ai_switch.Base.Result.{Result, ok, throw, fault, Result-cases}
use ai_switch.Json.{JsonLib}
use ai_switch.Stream.Blocks.{Cut, cut_nil}
use ai_switch.Sse.{SseHandler, fresh, feed}
use ai_switch.Sse.Laws.{concat}
use ai_switch.Adapter.{Adapter, deepseek, openai}
use ai_switch.Adapter.Curl.{Curl}
use ai_switch.Adapter.Chat.{what, openai_body, chat_url, request_headers}
use ai_switch.Adapter.Streaming.{
  Call, write_all, perform_stream, http_post_stream, chat_completion_stream,
}
use ai_switch.Adapter.Streaming.Laws.{any_done, write_all-concat}
use ai_switch.Session.Delivery.{Posted, chunk, failure}
use ai_switch.Session.Task.{posts, after_calls, caught, adapter_stream, stream_task}
use ai_switch.Session.Task.Answered.{IsAnswered, adapter_stream_lem, stream_task-answered}

-- Whether a handler that ends the stream is among those posted.
unfoldable pub any_end : List Posted → Bool
any_end [] = false
any_end (chunk c ∷ ps) = c.done || any_end ps
any_end (failure message ∷ ps) = true

any_end-posts : (calls : List Call) → any_end (posts calls) ≡ any_done calls
unfolding any_end any_done
any_end-posts [] = refl
any_end-posts (c ∷ cs) = ap (λ b. c.done || b) (any_end-posts cs)

any_end-failure :
    (calls : List Call) (message : Bytes) → any_end (posts calls ++ failure message ∷ []) ≡ true
unfolding any_end
any_end-failure [] message = refl
any_end-failure (c ∷ cs) message = ground (arith, any_end-failure cs message)

module _ (json : JsonLib) (C : Curl) (ai : Adapter) (request : json.Json) (net : C.Net) where
  -- The provider has answered with status 200, and there is no end mark in its stream.
  pub record IsUnmarked : Type 0 where
    pub raws : List Bytes
    pub handler : SseHandler
    pub messages : List Bytes
    pub answered : IsAnswered json C ai request net raws
    pub fed : feed fresh (concat raws) ≡ some (handler, messages)
    pub open_end : handler.done ≡ false

  -- An answer that was taken for a good one.
  abbrev IsGood : List Call → Type 0
  IsGood calls =
      (raws : List Bytes) × (h : SseHandler) × IsAnswered json C ai request net raws
      × (write_all json fresh raws ≡ some (h, calls))

  performed_ok :
      (body : json.Json) (text : Bytes) (calls : List Call)
      → (ai.provider ≡ deepseek) ⊎ (ai.provider ≡ openai)
      → openai_body json ai request true ≡ ok body
      → json.dump body ≡ ok text
      → (C.init net).0 ≡ true
      → (perform_stream json C ai (chat_url json ai) text (C.init net).1).0 ≡ (ok tt, calls)
      → IsGood calls
  unfolding perform_stream
  performed_ok body text calls kind built dumped made e =
      let out =
        (C.perform (record { url = chat_url json ai; headers = request_headers ai; body = text })
          (C.init net).1).0 in
      elim (Option-cases (write_all json fresh out.pieces)) [
        | inl fails ↦ absurd (ground arith)
        | inr ((h, some_calls), f) ↦ (
          out.pieces,
          h,
          record {
            kind = kind;
            body = body;
            built = built;
            text = text;
            dumped = dumped;
            made = made;
            outcome = out;
            performed = refl;
            accepted = ground arith;
            came = refl;
          },
          ground arith,
        )
      ]

  chat_completion_stream_ok :
      (calls : List Call)
      → (ai.provider ≡ deepseek) ⊎ (ai.provider ≡ openai)
      → (chat_completion_stream json C ai request net).0 ≡ (ok tt, calls)
      → IsGood calls
  unfolding chat_completion_stream http_post_stream
  chat_completion_stream_ok calls kind e = elim (Result-cases (openai_body json ai request true)) [
    | inl (body, built) ↦ elim (Result-cases (json.dump body)) [
      | inl (text, dumped) ↦ elim (Bool-cases (C.init net).0) [
        | inl made ↦ performed_ok body text calls kind built dumped made (ground arith)
        | inr failed ↦ absurd (ground arith)
      ]
      | inr stopped ↦ absurd (ground arith)
    ]
    | inr stopped ↦ absurd (ground arith)
  ]

  -- What the task posts, by the outcome of the call of the adapter.
  IsPosted : Result (Unit {0}) × List Call → List Posted → Type 0
  IsPosted (ok _, calls) ps = ps ≡ posts calls
  IsPosted (throw e, calls) ps = ps ≡ posts calls ++ failure (what e) ∷ []
  IsPosted (fault, calls) ps = ⊥

  posted_lem :
      (r : Result (Unit {0}) × List Call) (ps : List Posted)
      → after_calls r.1 (caught r.0) ≡ ok ps
      → IsPosted r ps
  unfolding IsPosted
  posted_lem (ok _, calls) ps e = ground (arith, append-nil (posts calls))
  posted_lem (throw x, calls) ps e = ground arith
  posted_lem (fault, calls) ps e = absurd (ground arith)

  unmarked_of : (calls : List Call) → IsGood calls → any_done calls ≡ false → IsUnmarked
  unmarked_of calls (raws, h, a, called) open_end =
      let (g, cs, ms, called', fed, same, ended) =
        write_all-concat json fresh raws (ap (λ (c : Cut). c.blocks) cut_nil) refl in
      record {
        raws = raws;
        handler = g;
        messages = ms;
        answered = a;
        fed = fed;
        open_end = ground arith;
      }

  open_IsUnmarked :
      (r : Result (Unit {0}) × List Call) (ps : List Posted)
      → (ai.provider ≡ deepseek) ⊎ (ai.provider ≡ openai)
      → (chat_completion_stream json C ai request net).0 ≡ r
      → IsPosted r ps
      → any_end ps ≡ false
      → IsUnmarked
  unfolding IsPosted
  open_IsUnmarked (ok tt, calls) ps kind e posted open_end =
      unmarked_of calls (chat_completion_stream_ok calls kind e)
        (sym (any_end-posts calls) ∙ ap any_end (sym posted) ∙ open_end)
  open_IsUnmarked (throw x, calls) ps kind e posted open_end =
      absurd (ground (arith, any_end-failure calls (what x), posted))
  open_IsUnmarked (fault, calls) ps kind e impossible open_end = absurd impossible

  -- The task of a provider of the OpenAI kind ends without a handler that ends the client's stream in one
  -- case only, and always then: the provider has answered with status 200, and its stream has no end
  -- mark. Every exception on the way, and every answer with another status, ends the stream.
  pub unended_iff :
      (ai.provider ≡ deepseek) ⊎ (ai.provider ≡ openai)
      → ((ps : List Posted) × ((stream_task json C ai request net).0 ≡ ok ps)
          × (any_end ps ≡ false))
        ↔ IsUnmarked
  unfolding stream_task
  unended_iff kind = (
    λ (ps, e, open_end).
        let r = (chat_completion_stream json C ai request net).0 in
        let same : (adapter_stream json C ai request net).0 ≡ r =
          ap (λ t. t.0) (adapter_stream_lem json C ai request net kind) in
        open_IsUnmarked r ps kind refl
          (posted_lem r ps (ap (λ t. after_calls t.1 (caught t.0)) (sym same) ∙ e)) open_end,
    λ u.
        let (g, calls, ms, called, fed, same, ended) =
          write_all-concat json fresh u.raws (ap (λ (c : Cut). c.blocks) cut_nil) refl in
        (
          posts calls,
          stream_task-answered json C ai request net u.raws g calls u.answered called,
          any_end-posts calls ∙ ground (arith, u.fed, u.open_end),
        ),
  )
