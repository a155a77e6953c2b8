-- ===== src/Adapter/Streaming/Laws.antt =====
-- What the session is called with, whatever the pieces in which a body comes in.
use ai_switch.Base.{
  ◌≡◌, refl, sym, ap, ◌∙◌, Bool, false, ◌||◌, List, [], ◌∷◌, ◌++◌, some, Bytes, arith, append_assoc,
  append-nil, if◌then◌else◌,
}
use ai_switch.Json.{JsonLib}
use ai_switch.Stream.Blocks.{cut, cut-rest}
use ai_switch.Sse.{SseHandler, feed}
use ai_switch.Sse.Laws.{IsSettled, feed-cut, feed_all, feed_all-concat, concat, payloads, ends}
use ai_switch.Adapter.Streaming.{
  Call, done_call, content_calls, contents, content_of, calls_of, stream_write_callback, write_all,
}

-- The contents of the calls that are not the last one of a stream.
unfoldable pub sent : List Call → List Bytes
sent [] = []
sent (c ∷ cs) = if c.done then sent cs else c.content ∷ sent cs

-- Whether there is a call that ends the stream.
unfoldable pub any_done : List Call → Bool
any_done [] = false
any_done (c ∷ cs) = c.done || any_done cs

sent-append : (xs ys : List Call) → sent (xs ++ ys) ≡ sent xs ++ sent ys
unfolding sent
sent-append [] ys = refl
sent-append (x ∷ xs) ys = ground (arith, sent-append xs ys)

any_done-append : (xs ys : List Call) → any_done (xs ++ ys) ≡ (any_done xs || any_done ys)
unfolding any_done
any_done-append [] ys = refl
any_done-append (x ∷ xs) ys = ground (arith, any_done-append xs ys)

sent-content_calls : (cs : List Bytes) → sent (content_calls cs) ≡ cs
unfolding sent
sent-content_calls [] = refl
sent-content_calls (c ∷ cs) = ap (λ r. c ∷ r) (sent-content_calls cs)

any_done-content_calls : (cs : List Bytes) → any_done (content_calls cs) ≡ false
unfolding any_done
any_done-content_calls [] = refl
any_done-content_calls (c ∷ cs) = any_done-content_calls cs

module _ (json : JsonLib) where
  contents-append :
      (xs ys : List Bytes) → contents json (xs ++ ys) ≡ contents json xs ++ contents json ys
  unfolding contents
  contents-append [] ys = refl
  contents-append (x ∷ xs) ys =
      rw (contents-append xs ys)
        (sym (append_assoc (content_of json x) (contents json xs) (contents json ys)))

  -- What the calls of a stream come to.
  record IsSent (h h' : SseHandler) (ms : List Bytes) (calls : List Call) : Type 0 where
    same : sent calls ≡ contents json ms
    ended : (h.done || any_done calls) ≡ h'.done

  IsSent-calls_of :
      (h h' : SseHandler) (ms : List Bytes)
      → (h.done || h'.done) ≡ h'.done
      → IsSent h h' ms (calls_of json (h', ms)).1
  unfolding sent any_done
  IsSent-calls_of h h' ms grows = record {
    same = ground (
      arith,
      sent-append (content_calls (contents json ms)) (if h'.done then done_call ∷ [] else []),
      sent-content_calls (contents json ms),
      append-nil (contents json ms),
    );
    ended = ground (
      arith,
      any_done-append (content_calls (contents json ms)) (if h'.done then done_call ∷ [] else []),
      any_done-content_calls (contents json ms),
    );
  }

  IsSent-append :
      {h h' h'' : SseHandler} {ms more : List Bytes} {calls others : List Call}
      → IsSent h h' ms calls
      → IsSent h' h'' more others
      → IsSent h h'' (ms ++ more) (calls ++ others)
  IsSent-append {h} {h'} {h''} {ms} {more} {calls} {others} a b = record {
    same = sent-append calls others ∙ ground (arith, a.same, b.same, contents-append ms more);
    ended = ground (arith, a.ended, b.ended, any_done-append calls others);
  }

  IsSent-nil : (h : SseHandler) → IsSent h h [] []
  unfolding sent any_done contents
  IsSent-nil h = record { same = refl; ended = ground arith }

  stream_write_callback_lem :
      (h : SseHandler) (raw : Bytes) (fed : SseHandler × List Bytes)
      → feed h raw ≡ some fed
      → stream_write_callback json h raw ≡ some (calls_of json fed)
  unfolding stream_write_callback
  stream_write_callback_lem h raw fed e = rw (e, stream_write_callback) refl

  write_all-IsSent :
      (h : SseHandler) (raws : List Bytes)
      → IsSettled h
      → (h' : SseHandler) × (calls : List Call) × (ms : List Bytes) × (write_all json h raws
          ≡ some (h', calls))
        × (feed_all h raws ≡ some (h', ms))
        × IsSent h h' ms calls
  unfolding write_all feed_all
  write_all-IsSent h [] settled = (h, [], [], refl, refl, IsSent-nil h)
  write_all-IsSent h (raw ∷ raws) settled =
      let h1 : SseHandler = record {
        buffer = (cut (h.buffer ++ raw)).rest;
        done = h.done || ends (cut (h.buffer ++ raw)).blocks;
      } in
      let ms1 = payloads (cut (h.buffer ++ raw)).blocks in
      let (h', calls, ms, written, fed, s) =
        write_all-IsSent h1 raws (cut-rest (h.buffer ++ raw)) in
      (
        h',
        (calls_of json (h1, ms1)).1 ++ calls,
        ms1 ++ ms,
        rw (stream_write_callback_lem h raw (h1, ms1) (feed-cut h raw), write_all, written) refl,
        rw (feed-cut h raw, feed_all, fed) refl,
        IsSent-append (IsSent-calls_of h h1 ms1 (ground arith)) s,
      )

  -- However a body is divided, a new or unfinished handler that holds no full event makes the same
  -- calls of content, in order: those of the messages of the body in one piece. A call that ends the
  -- stream is made exactly if the end mark is in the body.
  pub write_all-concat :
      (h : SseHandler) (raws : List Bytes)
      → IsSettled h
      → h.done ≡ false
      → (h' : SseHandler) × (calls : List Call) × (ms : List Bytes) × (write_all json h raws
          ≡ some (h', calls))
        × (feed h (concat raws) ≡ some (h', ms))
        × (sent calls ≡ contents json ms)
        × (any_done calls ≡ h'.done)
  write_all-concat h raws settled going =
      let (h', calls, ms, written, fed, s) = write_all-IsSent h raws settled in
      (
        h',
        calls,
        ms,
        written,
        sym (feed_all-concat h raws settled) ∙ fed,
        s.same,
        ground (arith, s.ended),
      )
