-- ===== src/Gateway/Relay.antt =====
-- What a client reads of a provider's stream: src/adapter/openai_compatible_adapter.cpp takes it apart,
-- src/server/session.cpp puts it together again, and the client's parser is taken to be that of
-- src/stream/sse_handler.cpp.
use ai_switch.Base.{
  ◌≡◌, refl, sym, ap, subst, ◌⊎◌, ◌∙◌, true, false, List, [], ◌∷◌, ◌++◌, none, some, Bytes, bytes,
  arith, append-nil, if◌then◌else◌, str_eq, find, starts_with, All, Bool-cases, inl, inr,
}
use ai_switch.Json.{JsonLib}
use ai_switch.Stream.Blocks.{Cut, cut, cut_nil, IsBlock}
use ai_switch.Sse.{SseHandler, fresh, prefix, strip, feed, make_chunk, make_done_chunk}
use ai_switch.Sse.Laws.{feed-cut, payload_of, payloads, ends, concat}
use ai_switch.Sse.RoundTrip.{IsMessage, cut-make_chunk, payload_of-line, strip-prefix}
use ai_switch.Base.Result.{ok}
use ai_switch.Adapter.{Adapter}
use ai_switch.Adapter.Curl.{Curl}
use ai_switch.Adapter.Streaming.{Call, contents}
use ai_switch.Adapter.Streaming.Laws.{sent, any_done, write_all-concat}
use ai_switch.Session.{Session, send_stream_chunk}
use ai_switch.Session.Task.{posts, stream_task}
use ai_switch.Session.Task.Answered.{IsAnswered, stream_task-answered}
use ai_switch.Session.Delivery.{Posted, started, handler_writes, deliver, Delivery, Reach, begin}
use ai_switch.Session.Delivery.Order.{running, Reach-one_thread}

-- The text of the event that a call ends up in.
abbrev text_of : Call → Bytes
text_of c = if c.done then bytes "[DONE]" else c.content

abbrev wire : List Call → List Bytes
wire [] = []
wire (c ∷ cs) = make_chunk (text_of c) ∷ wire cs

deliver-posts :
    (calls : List Call) (s : Session)
    → s.stream_headers_sent ≡ true
    → deliver (posts calls) s ≡ wire calls
unfolding deliver handler_writes started send_stream_chunk make_done_chunk make_chunk
deliver-posts [] s h = refl
deliver-posts (c ∷ cs) s h = ground (arith, deliver-posts cs s h)

lines : List Call → List Bytes
lines [] = []
lines (c ∷ cs) = (prefix ++ text_of c) ∷ lines cs

done_sent : (c : Call) (cs : List Call) → c.done ≡ true → sent (c ∷ cs) ≡ sent cs
unfolding sent
done_sent c cs e = ground arith

content_sent : (c : Call) (cs : List Call) → c.done ≡ false → sent (c ∷ cs) ≡ c.content ∷ sent cs
unfolding sent
content_sent c cs e = ground arith

-- The call that ends a stream, or one of a message.
Kind : Call → Type 0
Kind c = (c.done ≡ true) ⊎ ((c.done ≡ false) × IsMessage c.content)

sent-cons :
    (c : Call) (cs : List Call) → All IsMessage (sent (c ∷ cs)) → Kind c × All IsMessage (sent cs)
unfolding Kind
sent-cons c cs h = elim (Bool-cases c.done) [
  | inl e ↦ (inl e, subst (All IsMessage) (done_sent c cs e) h)
  | inr e ↦
      let (first, others) = subst (All IsMessage) (content_sent c cs e) h in
      (inr (e, first), others)
]

done-IsBlock : IsBlock (bytes "[DONE]")
unfolding find starts_with
done-IsBlock = refl

IsBlock-text_of : (c : Call) → Kind c → IsBlock (text_of c)
unfolding Kind find starts_with
IsBlock-text_of c (inl e) =
    let mark : bytes "[DONE]" ≡ text_of c = ground arith in subst IsBlock mark done-IsBlock
IsBlock-text_of c (inr (e, m)) =
    let content : c.content ≡ text_of c = ground arith in subst IsBlock content m.block

cut-wire :
    (calls : List Call)
    → All IsMessage (sent calls)
    → cut (concat (wire calls)) ≡ record { blocks = lines calls; rest = [] }
unfolding lines
cut-wire [] h = cut_nil
cut-wire (c ∷ cs) h =
    cut-make_chunk (text_of c) (concat (wire cs)) (IsBlock-text_of c (sent-cons c cs h).0)
    ∙ ap (λ (r : Cut). record { blocks = (prefix ++ text_of c) ∷ r.blocks; rest = r.rest })
        (cut-wire cs (sent-cons c cs h).1)

-- What the line of a call says.
line_lem :
    (c : Call)
    → Kind c
    → (payload_of (prefix ++ text_of c) ≡ (if c.done then [] else c.content ∷ []))
      × (str_eq (strip (prefix ++ text_of c)) (bytes "[DONE]") ≡ c.done)
unfolding Kind payload_of strip str_eq
line_lem c (inl e) = ground arith
line_lem c (inr (e, m)) =
    let (said, open_end) =
      payload_of-line (prefix ++ c.content) c.content (strip-prefix c.content) m in
    ground arith

payloads-lines :
    (calls : List Call)
    → All IsMessage (sent calls)
    → (payloads (lines calls) ≡ sent calls) × (ends (lines calls) ≡ any_done calls)
unfolding lines payloads ends sent any_done
payloads-lines [] h = (refl, refl)
payloads-lines (c ∷ cs) h =
    let (kind, others) = sent-cons c cs h in
    ground (arith, payloads-lines cs others, line_lem c kind)

-- A client that parses what is written for a list of calls gets the contents of those that do not end
-- the stream, and the end mark if one does.
feed-wire :
    (calls : List Call)
    → All IsMessage (sent calls)
    → feed fresh (concat (wire calls))
      ≡ some (record { buffer = []; done = any_done calls }, sent calls)
feed-wire calls h =
    rw (feed-cut fresh (concat (wire calls)), cut-wire calls h)
      (ground (arith, payloads-lines calls h))

all_written :
    (calls : List Call) (s : Session) (d : Delivery)
    → s.stream_headers_sent ≡ true
    → deliver d.posted s ≡ d.written ++ running (d.pc 0) s ++ deliver d.queue s
    → d.posted ≡ posts calls
    → d.queue ≡ []
    → d.pc 0 ≡ none
    → d.written ≡ wire calls
unfolding deliver
all_written calls s d header order posted drained quiet =
    let nothing_left : d.written ++ running (d.pc 0) s ++ deliver d.queue s ≡ d.written =
      ground (arith, append-nil d.written) in
    sym nothing_left ∙ sym order ∙ ap (λ ps. deliver ps s) posted ∙ deliver-posts calls s header

module _ (json : JsonLib) (C : Curl) (ai : Adapter) (request : json.Json) (net : C.Net)
    (raws : List Bytes) (h' : SseHandler) (ms : List Bytes)
    (a : IsAnswered json C ai request net raws)
    (fed : feed fresh (concat raws) ≡ some (h', ms)) where
  -- A provider of the OpenAI kind answers 200, and the parser takes its stream apart. The client's header
  -- has been sent, the contents are messages, one thread runs the event loop, the task has posted all
  -- that it posts, and every handler has run. Then the writes that were started, one behind the other,
  -- are parsed as the contents that the provider sent, in their order, and as ended exactly if the
  -- provider's stream was.
  pub relayed :
      (s : Session) (ps : List Posted) {d : Delivery}
      → s.stream_headers_sent ≡ true
      → All IsMessage (contents json ms)
      → (stream_task json C ai request net).0 ≡ ok ps
      → Reach 1 (begin s) d
      → d.posted ≡ ps
      → d.queue ≡ []
      → d.pc 0 ≡ none
      → feed fresh (concat d.written)
        ≡ some (record { buffer = []; done = h'.done }, contents json ms)
  relayed s ps {d} header messages posts_them r posted drained quiet =
      let (g, calls, ns, called, fed', same, ended) =
        write_all-concat json fresh raws (ap (λ (c : Cut). c.blocks) cut_nil) refl in
      let task : (stream_task json C ai request net).0 ≡ ok (posts calls) =
        stream_task-answered json C ai request net raws g calls a called in
      let all_posted : d.posted ≡ posts calls = ground arith in
      let written : d.written ≡ wire calls =
        all_written calls s d header (Reach-one_thread s r) all_posted drained quiet in
      let contents_sent : sent calls ≡ contents json ms = ground arith in
      ap (λ l. feed fresh (concat l)) written
      ∙ feed-wire calls (subst (All IsMessage) (sym contents_sent) messages)
      ∙ ground arith
