-- ===== src/Tests/Relay.antt =====
-- A streamed answer of one content, from the provider to the client, and two threads that swap chunks.
use ai_switch.Base.{
  ◌≡◌, ◌↔◌, refl, subst, true, false, List, [], ◌∷◌, none, some, Bytes, bytes, str_eq, find,
  starts_with, All, arith, inl,
}
use ai_switch.Base.Threads.{update}
use ai_switch.Base.Result.{ok}
use ai_switch.Config.{defaults}
use ai_switch.Sse.{SseHandler, fresh, feed, make_chunk, make_done_chunk, strip}
use ai_switch.Stream.Blocks.{cut}
use ai_switch.Sse.Laws.{concat, feed-cut, payloads, payload_of, ends}
use ai_switch.Sse.RoundTrip.{IsMessage}
use ai_switch.Adapter.Chat.{openai_body}
use ai_switch.Adapter.Curl.{Outcome, Curl}
use ai_switch.Adapter.Streaming.{
  Call, content_call, done_call, contents, content_of, delta_content, stream_result,
  stream_write_callback, write_all,
}
use ai_switch.Server.{event_threads}
use ai_switch.Session.{Session, send_stream_chunk}
use ai_switch.Session.Task.{stream_task}
use ai_switch.Session.Task.Answered.{IsAnswered, stream_task-answered}
use ai_switch.Session.Task.Ended.{any_end, IsUnmarked, unended_iff}
use ai_switch.Session.Delivery.{
  Posted, chunk, Delivery, post, pick, run, Reach, here, next, begin, handler_writes, started,
}
use ai_switch.Session.Delivery.Order.{overtaken_chunk}
use ai_switch.Gateway.Relay.{relayed}
use ai_switch.Tests.Toy.{toy_json, deepseek_ai, stream_body}

abbrev pieces : List Bytes
pieces = bytes "data: h" ∷ bytes "i\n\ndata: [DONE]\n\n" ∷ []

abbrev cut_off : List Bytes
cut_off = bytes "data: h" ∷ bytes "i\n\n" ∷ []

-- A provider that answers in these pieces.
abbrev answering : List Bytes → Outcome
answering raws = record { error = none; write_error = false; http_code = 200; pieces = raws }

abbrev provider : List Bytes → Curl
provider raws = record { Net = Unit; init = λ n. (true, n); perform = λ t n. (answering raws, n) }

abbrev openai_text : Bytes
openai_text = bytes "modeldeepseek-chatmessagestruedeepseek-chattemperature0.7max_tokensstream"

answered : (raws : List Bytes) → IsAnswered toy_json (provider raws) deepseek_ai stream_body tt raws
unfolding openai_body stream_result
answered raws = record {
  kind = inl refl;
  body = openai_text;
  built = refl;
  text = openai_text;
  dumped = refl;
  made = refl;
  outcome = answering raws;
  performed = refl;
  accepted = refl;
  came = refl;
}

abbrev ended : SseHandler
ended = record { buffer = []; done = true }

fed_pieces : feed fresh (concat pieces) ≡ some (ended, bytes "hi" ∷ [])
unfolding cut strip str_eq payloads payload_of ends
fed_pieces = feed-cut fresh (concat pieces)

IsMessage-hi : IsMessage (bytes "hi")
unfolding find starts_with
IsMessage-hi = record { block = refl; not_empty = λ e. cc; not_done = λ e. cc }

contents_hi : bytes "hi" ∷ [] ≡ contents toy_json (bytes "hi" ∷ [])
unfolding contents content_of delta_content
contents_hi = refl

abbrev streaming : Session
streaming = record { is_streaming = true; stream_headers_sent = true }

abbrev hi : Posted
hi = chunk (content_call (bytes "hi"))

abbrev over : Posted
over = chunk done_call

abbrev posted_both : Delivery
posted_both = record (begin streaming) { queue = hi ∷ over ∷ []; posted = hi ∷ over ∷ [] }

abbrev picked : Delivery
picked = record posted_both { queue = over ∷ []; pc = update posted_both.pc 0 (some hi) }

abbrev ran : Delivery
ran = record picked { pc = update picked.pc 0 none; written = make_chunk (bytes "hi") ∷ [] }

abbrev picked_over : Delivery
picked_over = record ran { queue = []; pc = update ran.pc 0 (some over) }

abbrev delivered : Delivery
delivered = record picked_over {
  pc = update picked_over.pc 0 none;
  written = make_chunk (bytes "hi") ∷ make_done_chunk ∷ [];
}

to_picked : Reach 1 (begin streaming) picked
to_picked =
    next (next (next here (post hi)) (post over)) (pick 0 hi (over ∷ []) (omega arith) refl refl)

to_delivered : Reach 1 (begin streaming) delivered
unfolding handler_writes started send_stream_chunk
to_delivered =
    next
      (next (next to_picked (run 0 hi (omega arith) refl)) (pick 0 over [] (omega arith) refl refl))
      (run 0 over (omega arith) refl)

abbrev half : SseHandler
half = record { buffer = bytes "data: h"; done = false }

feed_first : feed fresh (bytes "data: h") ≡ some (half, [])
unfolding cut strip str_eq payloads payload_of ends
feed_first = feed-cut fresh (bytes "data: h")

feed_second : feed half (bytes "i\n\ndata: [DONE]\n\n") ≡ some (ended, bytes "hi" ∷ [])
unfolding cut strip str_eq payloads payload_of ends
feed_second = feed-cut half (bytes "i\n\ndata: [DONE]\n\n")

abbrev two_calls : List Call
two_calls = content_call (bytes "hi") ∷ done_call ∷ []

write_run : write_all toy_json fresh pieces ≡ some (ended, two_calls)
unfolding write_all stream_write_callback contents content_of delta_content
write_run = rw (feed_first, stream_write_callback, write_all, feed_second) refl

task_run :
    (stream_task toy_json (provider pieces) deepseek_ai stream_body tt).0 ≡ ok (hi ∷ over ∷ [])
task_run =
    stream_task-answered toy_json (provider pieces) deepseek_ai stream_body tt pieces ended
      two_calls (answered pieces) write_run

relayed_example :
    feed fresh (concat delivered.written)
    ≡ some (record { buffer = []; done = true }, contents toy_json (bytes "hi" ∷ []))
relayed_example =
    relayed toy_json (provider pieces) deepseek_ai stream_body tt pieces ended (bytes "hi" ∷ [])
      (answered pieces) fed_pieces streaming (hi ∷ over ∷ []) refl
      (subst (All IsMessage) contents_hi (IsMessage-hi, tt)) task_run to_delivered refl refl refl

unended_iff_example :
    ((ps : List Posted) × ((stream_task toy_json (provider cut_off) deepseek_ai stream_body tt).0
        ≡ ok ps)
      × (any_end ps ≡ false))
    ↔ IsUnmarked toy_json (provider cut_off) deepseek_ai stream_body tt
unended_iff_example = unended_iff toy_json (provider cut_off) deepseek_ai stream_body tt (inl refl)

-- Both sides of it hold.
abbrev unfinished : SseHandler
unfinished = record { buffer = []; done = false }

fed_cut_off : feed fresh (concat cut_off) ≡ some (unfinished, bytes "hi" ∷ [])
unfolding cut strip str_eq payloads payload_of ends
fed_cut_off = feed-cut fresh (concat cut_off)

IsUnmarked-cut_off : IsUnmarked toy_json (provider cut_off) deepseek_ai stream_body tt
IsUnmarked-cut_off = record {
  raws = cut_off;
  handler = unfinished;
  messages = bytes "hi" ∷ [];
  answered = answered cut_off;
  fed = fed_cut_off;
  open_end = refl;
}

overtaken_chunk_example :
    (d : Delivery) × Reach (event_threads defaults) (begin streaming) d
    × (d.posted ≡ chunk (content_call (bytes "a")) ∷ chunk (content_call (bytes "b")) ∷ [])
    × (d.written ≡ make_chunk (bytes "b") ∷ make_chunk (bytes "a") ∷ [])
overtaken_chunk_example =
    overtaken_chunk (event_threads defaults) streaming (bytes "a") (bytes "b") (omega arith) refl
