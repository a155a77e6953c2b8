-- ===== src/Adapter/Anthropic.antt =====
-- `anthropic_stream_parser` of src/adapter/anthropic_adapter.cpp: the events of Anthropic's streams.
pub mod Laws
pub mod Transfer
use ai_switch.Base.{
  ℕ, zero, suc, ◌+◌, Bool, true, false, not, ◌&&◌, List, [], ◌∷◌, ◌++◌, Option, none, some, Bytes,
  bytes, str_eq, is_empty, starts_with, drop, length, if◌then◌else◌, ◌==◌,
}
use ai_switch.Base.Result.{Result, ok, throw, fault, and_then}
use ai_switch.Json.{JsonLib}
use ai_switch.Stream.Blocks.{newline}
use ai_switch.Stream.Drain.{drain}

pub record Parser : Type 0 where
  pub buffer : Bytes
  pub done : Bool

abbrev pub fresh : Parser
fresh = record { buffer = []; done = false }

-- What one call of `feed` collects.
pub record Collected : Type 0 where
  pub done : Bool
  pub texts : List Bytes

-- The two fields of an event.
pub record Event : Type 0 where
  pub event_type : Bytes
  pub data_line : Bytes

abbrev pub event_prefix : Bytes
event_prefix = bytes "event: "

abbrev pub data_prefix : Bytes
data_prefix = bytes "data: "

-- One line of a block; a later line of the same kind replaces an earlier one.
unfoldable pub read_line : Bytes → Event → Event
read_line line e =
    if starts_with line event_prefix
    then record e { event_type = drop (length event_prefix) line }
    else if starts_with line data_prefix
    then record e { data_line = drop (length data_prefix) line }
    else e

-- The lines of a block, one at least.
unfoldable pub split_lines : Bytes → List Bytes
split_lines [] = [] ∷ []
split_lines (c ∷ s) = elim (c == newline) [
  | true ↦ [] ∷ split_lines s
  | false ↦ elim (split_lines s) [ [] ↦ (c ∷ []) ∷ [] | line ∷ lines ↦ (c ∷ line) ∷ lines ]
]

unfoldable pub read_lines : List Bytes → Event → Event
read_lines [] e = e
read_lines (line ∷ lines) e = read_lines lines (read_line line e)

unfoldable pub read_event : Bytes → Event
read_event block = read_lines (split_lines block) (record { event_type = []; data_line = [] })

abbrev pub text_list : Option Bytes → List Bytes
text_list none = []
text_list (some text) = text ∷ []

module _ (json : JsonLib) where
  open json use {Json, parse, contains, member, get_string}

  -- The text of a delta, `none` where a key is missing.
  unfoldable pub delta_text : Json → Result (Option Bytes)
  delta_text chunk = elim (contains chunk (bytes "delta")) [
    | false ↦ ok none
    | true ↦ and_then (member chunk (bytes "delta")) λ delta. elim (contains delta (bytes "text")) [
      | false ↦ ok none
      | true ↦
          and_then (member delta (bytes "text")) λ text. and_then (get_string text) λ s. ok (some s)
    ]
  ]

  -- What `catch (...)` skips, and a delta without a text, give no text.
  unfoldable pub text_of : Bytes → List Bytes
  text_of data_line = elim (and_then (parse data_line) delta_text) [
    | ok text ↦ text_list text
    | throw e ↦ []
    | fault ↦ []
  ]

  unfoldable pub handle_event : Event → Collected → Collected
  handle_event e s =
      if str_eq e.event_type (bytes "message_stop")
      then record s { done = true }
      else if str_eq e.event_type (bytes "content_block_delta") && not (is_empty e.data_line)
      then record s { texts = s.texts ++ text_of e.data_line }
      else s

  -- The body of the loop, after a block is cut off.
  unfoldable pub handle_block : Bytes → Collected → Collected
  handle_block block s = handle_event (read_event block) s

  abbrev finish : Option (Bytes × Collected) → Option (Parser × List Bytes)
  finish none = none
  finish (some (buffer, s)) = some (record { buffer = buffer; done = s.done }, s.texts)

  unfoldable pub feed : Parser → Bytes → Option (Parser × List Bytes)
  feed p raw =
      let buffer = p.buffer ++ raw in
      finish (drain handle_block (length buffer + 1) buffer (record { done = p.done; texts = [] }))
