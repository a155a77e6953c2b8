-- ===== src/Sse.antt =====
-- src/stream/sse_handler.h and src/stream/sse_handler.cpp: the parser of the `data: …` events that
-- an OpenAI-compatible provider streams, and the two functions that make such events.
pub mod Laws
pub mod RoundTrip
mod Tests
use ai_switch.Base.{
  ℕ, ◌+◌, Bool, true, false, List, [], ◌∷◌, ◌++◌, Option, none, some, Bytes, bytes, str_eq,
  is_empty, take, drop, length, if◌then◌else◌,
}
use ai_switch.Stream.Drain.{drain}

pub record SseHandler : Type 0 where
  pub buffer : Bytes
  pub done : Bool

abbrev pub fresh : SseHandler
fresh = record { buffer = []; done = false }

-- What one call of `feed` collects.
pub record Feed : Type 0 where
  pub done : Bool
  pub messages : List Bytes

abbrev pub prefix : Bytes
prefix = bytes "data: "

-- Take the `data: ` off a line that has it.
unfoldable pub strip : Bytes → Bytes
strip line = if str_eq (take (length prefix) line) prefix then drop (length prefix) line else line

-- The body of the loop, after a line is cut off.
unfoldable pub handle_line : Bytes → Feed → Feed
handle_line line s =
    let payload = strip line in
    if str_eq payload (bytes "[DONE]")
    then record s { done = true }
    else if is_empty payload
    then s
    else record s { messages = s.messages ++ payload ∷ [] }

abbrev finish : Option (Bytes × Feed) → Option (SseHandler × List Bytes)
finish none = none
finish (some (buffer, s)) = some (record { buffer = buffer; done = s.done }, s.messages)

-- `none` would mean that the loop does not end.
unfoldable pub feed : SseHandler → Bytes → Option (SseHandler × List Bytes)
feed h raw_data =
    let buffer = h.buffer ++ raw_data in
    finish (drain handle_line (length buffer + 1) buffer (record { done = h.done; messages = [] }))

unfoldable pub make_chunk : Bytes → Bytes
make_chunk content = prefix ++ content ++ bytes "\n\n"

unfoldable pub make_done_chunk : Bytes
make_done_chunk = bytes "data: [DONE]\n\n"
