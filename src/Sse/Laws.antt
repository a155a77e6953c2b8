-- ===== src/Sse/Laws.antt =====
-- The events that come out of `feed`, whatever the pieces in which the bytes come in.
use ai_switch.Base.{
  ◌+◌, ◌≡◌, refl, sym, ap, Bool, false, ◌||◌, List, [], ◌∷◌, ◌++◌, Option, none, some, Bytes, bytes,
  str_eq, is_empty, length, if◌then◌else◌, arith, append-nil, append_assoc,
}
use ai_switch.Stream.Blocks.{cut, cut-append, cut_whole, cut-rest}
use ai_switch.Stream.Drain.{drain-cut, handle_all}
use ai_switch.Sse.{SseHandler, Feed, strip, handle_line, feed}

-- What the lines of a stream say: its messages, and whether the end mark is among them.
unfoldable pub payload_of : Bytes → List Bytes
payload_of line =
    if str_eq (strip line) (bytes "[DONE]")
    then []
    else if is_empty (strip line)
    then []
    else strip line ∷ []

unfoldable pub payloads : List Bytes → List Bytes
payloads [] = []
payloads (line ∷ lines) = payload_of line ++ payloads lines

unfoldable pub ends : List Bytes → Bool
ends [] = false
ends (line ∷ lines) = str_eq (strip line) (bytes "[DONE]") || ends lines

handle_line_lem :
    (line : Bytes) (s : Feed)
    → handle_line line s ≡ record {
      done = s.done || str_eq (strip line) (bytes "[DONE]");
      messages = s.messages ++ payload_of line;
    }
unfolding handle_line payload_of
handle_line_lem line s = ground (arith, append-nil s.messages)

handle_all-lines :
    (lines : List Bytes) (s : Feed)
    → handle_all handle_line lines s
      ≡ record { done = s.done || ends lines; messages = s.messages ++ payloads lines }
unfolding handle_all payloads ends
handle_all-lines [] s = ground (arith, append-nil s.messages)
handle_all-lines (line ∷ lines) s =
    rw (handle_line_lem line s, handle_all-lines lines)
      (ground (arith, append_assoc s.messages (payload_of line) (payloads lines)))

-- `feed` always returns. It leaves the bytes after the last blank line in its buffer, and gives the
-- messages of the lines before it in order; `done` is set once an end mark has come.
pub feed-cut :
    (h : SseHandler) (raw : Bytes)
    → feed h raw
      ≡ some (
        record {
          buffer = (cut (h.buffer ++ raw)).rest;
          done = h.done || ends (cut (h.buffer ++ raw)).blocks;
        },
        payloads (cut (h.buffer ++ raw)).blocks,
      )
unfolding feed
feed-cut h raw = rw (
  drain-cut handle_line (length (h.buffer ++ raw) + 1) (h.buffer ++ raw)
      (record { done = h.done; messages = [] }) (omega arith),
  handle_all-lines,
)

-- The bytes that a handler keeps hold no full event.
abbrev pub IsSettled : SseHandler → Type 0
IsSettled h = (cut h.buffer).blocks ≡ []

pub feed-IsSettled :
    (h h' : SseHandler) (raw : Bytes) (ms : List Bytes) → feed h raw ≡ some (h', ms) → IsSettled h'
feed-IsSettled h h' raw ms e =
    let same : h'.buffer ≡ (cut (h.buffer ++ raw)).rest = ground (arith, feed-cut h raw) in
    rw same (cut-rest (h.buffer ++ raw))

payloads-append : (xs ys : List Bytes) → payloads (xs ++ ys) ≡ payloads xs ++ payloads ys
unfolding payloads
payloads-append [] ys = refl
payloads-append (x ∷ xs) ys =
    rw (payloads-append xs ys) (sym (append_assoc (payload_of x) (payloads xs) (payloads ys)))

ends-append : (xs ys : List Bytes) → ends (xs ++ ys) ≡ (ends xs || ends ys)
unfolding ends
ends-append [] ys = refl
ends-append (x ∷ xs) ys = ground (arith, ends-append xs ys)

abbrev pub prepend :
    List Bytes → Option (SseHandler × List Bytes) → Option (SseHandler × List Bytes)
prepend ms none = none
prepend ms (some (h, more)) = some (h, ms ++ more)

abbrev after : SseHandler → Bytes → SseHandler
after h raw = record {
  buffer = (cut (h.buffer ++ raw)).rest;
  done = h.done || ends (cut (h.buffer ++ raw)).blocks;
}

feed-append :
    (h : SseHandler) (raw more : Bytes)
    → feed h (raw ++ more)
      ≡ prepend (payloads (cut (h.buffer ++ raw)).blocks) (feed (after h raw) more)
feed-append h raw more =
    rw
      (
        feed-cut h (raw ++ more),
        feed-cut (after h raw) more,
        ← append_assoc h.buffer raw more,
        cut-append (h.buffer ++ raw) more,
        ends-append,
        payloads-append,
      )
      (ground arith)

-- The bytes come in pieces of any size: `feed` is called on each in turn.
unfoldable pub feed_all : SseHandler → List Bytes → Option (SseHandler × List Bytes)
feed_all h [] = some (h, [])
feed_all h (raw ∷ raws) = elim (feed h raw) [
  | none ↦ none
  | some (h', ms) ↦ prepend ms (feed_all h' raws)
]

abbrev pub concat : List Bytes → Bytes
concat [] = []
concat (x ∷ xs) = x ++ concat xs

-- However the network divides a stream, a handler that holds no complete event gives the same
-- messages, the same `done` and the same kept bytes as for the stream in one piece.
pub feed_all-concat :
    (h : SseHandler) (raws : List Bytes) → IsSettled h → feed_all h raws ≡ feed h (concat raws)
unfolding feed_all
feed_all-concat h [] settled =
    rw (feed-cut h [], append-nil h.buffer, cut_whole h.buffer settled)
      (unfold ends payloads in (ground arith))
feed_all-concat h (raw ∷ raws) settled =
    rw (feed-append h raw (concat raws), feed-cut h raw, feed_all)
      (ap (prepend _) (feed_all-concat (after h raw) raws (cut-rest (h.buffer ++ raw))))
