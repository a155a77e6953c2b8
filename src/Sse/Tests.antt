-- ===== src/Sse/Tests.antt =====
-- Runs of the parser on a short stream.
use ai_switch.Base.{◌≡◌, refl, List, [], ◌∷◌, some, Bytes, bytes, true, find, starts_with}
use ai_switch.Stream.Blocks.{cut}
use ai_switch.Sse.{fresh, feed}
use ai_switch.Sse.Laws.{feed_all, concat, feed_all-concat, payloads, ends, feed-cut}
use ai_switch.Sse.RoundTrip.{IsMessage, encode, feed-encode}

abbrev pieces : List Bytes
pieces = bytes "da" ∷ bytes "ta: hi\n" ∷ bytes "\ndata: [DO" ∷ bytes "NE]\n\nda" ∷ []

feed_all-concat_example : feed_all fresh pieces ≡ feed fresh (concat pieces)
unfolding cut
feed_all-concat_example = feed_all-concat fresh pieces refl

IsMessage-hi : IsMessage (bytes "hi")
unfolding find starts_with
IsMessage-hi = record { block = refl; not_empty = λ e. cc; not_done = λ e. cc }

IsMessage-ok : IsMessage (bytes "ok")
unfolding find starts_with
IsMessage-ok = record { block = refl; not_empty = λ e. cc; not_done = λ e. cc }

feed-encode_example :
    feed fresh (encode (bytes "hi" ∷ bytes "ok" ∷ []))
    ≡ some (record { buffer = []; done = true }, bytes "hi" ∷ bytes "ok" ∷ [])
feed-encode_example = feed-encode (bytes "hi" ∷ bytes "ok" ∷ []) (IsMessage-hi, (IsMessage-ok, tt))

feed-cut_example :
    feed fresh (bytes "data: hi\n\nda")
    ≡ some (
      record {
        buffer = (cut (bytes "data: hi\n\nda")).rest;
        done = ends (cut (bytes "data: hi\n\nda")).blocks;
      },
      payloads (cut (bytes "data: hi\n\nda")).blocks,
    )
feed-cut_example = feed-cut fresh (bytes "data: hi\n\nda")
