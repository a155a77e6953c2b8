-- ===== src/Adapter/Anthropic/Laws.antt =====
-- The texts that come out of `feed`, whatever the pieces in which the bytes come in.
use ai_switch.Base.{
  ◌+◌, ◌≡◌, refl, sym, ap, Bool, false, ◌||◌, List, [], ◌∷◌, ◌++◌, Option, none, some, Bytes, bytes,
  str_eq, length, arith, append-nil, append_assoc,
}
use ai_switch.Json.{JsonLib}
use ai_switch.Stream.Blocks.{cut, cut-append, cut_whole, cut-rest}
use ai_switch.Stream.Drain.{drain-cut, handle_all}
use ai_switch.Sse.Laws.{concat}
use ai_switch.Adapter.Anthropic.{Parser, Collected, read_event, handle_event, handle_block, feed}

-- Whether a block is the stop event.
unfoldable pub is_stop : Bytes → Bool
is_stop block = str_eq (read_event block).event_type (bytes "message_stop")

unfoldable pub stops : List Bytes → Bool
stops [] = false
stops (b ∷ bs) = is_stop b || stops bs

abbrev pub IsSettled : Parser → Type 0
IsSettled p = (cut p.buffer).blocks ≡ []

stops-append : (xs ys : List Bytes) → stops (xs ++ ys) ≡ (stops xs || stops ys)
unfolding stops
stops-append [] ys = refl
stops-append (x ∷ xs) ys = ground (arith, stops-append xs ys)

module _ (json : JsonLib) where
  -- The texts of one block.
  unfoldable pub texts_of : Bytes → List Bytes
  texts_of block = (handle_block json block (record { done = false; texts = [] })).texts

  unfoldable pub all_texts : List Bytes → List Bytes
  all_texts [] = []
  all_texts (b ∷ bs) = texts_of b ++ all_texts bs

  handle_block_lem :
      (block : Bytes) (s : Collected)
      → handle_block json block s
        ≡ record { done = s.done || is_stop block; texts = s.texts ++ texts_of block }
  unfolding handle_block handle_event is_stop texts_of
  handle_block_lem block s = ground (arith, append-nil s.texts)

  handle_all-blocks :
      (blocks : List Bytes) (s : Collected)
      → handle_all (handle_block json) blocks s
        ≡ record { done = s.done || stops blocks; texts = s.texts ++ all_texts blocks }
  unfolding handle_all all_texts stops
  handle_all-blocks [] s = ground (arith, append-nil s.texts)
  handle_all-blocks (b ∷ bs) s =
      rw (handle_block_lem b s, handle_all-blocks bs)
        (ground (arith, append_assoc s.texts (texts_of b) (all_texts bs)))

  all_texts-append : (xs ys : List Bytes) → all_texts (xs ++ ys) ≡ all_texts xs ++ all_texts ys
  unfolding all_texts
  all_texts-append [] ys = refl
  all_texts-append (x ∷ xs) ys =
      rw (all_texts-append xs ys) (sym (append_assoc (texts_of x) (all_texts xs) (all_texts ys)))

  -- `feed` always returns, with the texts of the complete events in order and the bytes after the
  -- last of them kept; `done` is set once a stop event has come.
  pub anthropic_feed-cut :
      (p : Parser) (raw : Bytes)
      → feed json p raw
        ≡ some (
          record {
            buffer = (cut (p.buffer ++ raw)).rest;
            done = p.done || stops (cut (p.buffer ++ raw)).blocks;
          },
          all_texts (cut (p.buffer ++ raw)).blocks,
        )
  unfolding feed
  anthropic_feed-cut p raw = rw (
    drain-cut (handle_block json) (length (p.buffer ++ raw) + 1) (p.buffer ++ raw)
        (record { done = p.done; texts = [] }) (omega arith),
    handle_all-blocks,
  )

  abbrev prepend : List Bytes → Option (Parser × List Bytes) → Option (Parser × List Bytes)
  prepend ms none = none
  prepend ms (some (p, more)) = some (p, ms ++ more)

  abbrev after : Parser → Bytes → Parser
  after p raw = record {
    buffer = (cut (p.buffer ++ raw)).rest;
    done = p.done || stops (cut (p.buffer ++ raw)).blocks;
  }

  feed-append :
      (p : Parser) (raw more : Bytes)
      → feed json p (raw ++ more)
        ≡ prepend (all_texts (cut (p.buffer ++ raw)).blocks) (feed json (after p raw) more)
  feed-append p raw more =
      rw
        (
          anthropic_feed-cut p (raw ++ more),
          anthropic_feed-cut (after p raw) more,
          ← append_assoc p.buffer raw more,
          cut-append (p.buffer ++ raw) more,
          stops-append,
          all_texts-append,
        )
        (ground arith)

  -- `feed` on each piece in turn.
  unfoldable pub feed_all : Parser → List Bytes → Option (Parser × List Bytes)
  feed_all p [] = some (p, [])
  feed_all p (raw ∷ raws) = elim (feed json p raw) [
    | none ↦ none
    | some (p', ts) ↦ prepend ts (feed_all p' raws)
  ]

  -- However the network divides a stream, the parser gives the same texts, the same `done` and the
  -- same kept bytes as for the stream in one piece, if it holds no complete event at first.
  pub anthropic_feed_all-concat :
      (p : Parser) (raws : List Bytes) → IsSettled p → feed_all p raws ≡ feed json p (concat raws)
  unfolding feed_all
  anthropic_feed_all-concat p [] settled =
      rw (anthropic_feed-cut p [], append-nil p.buffer, cut_whole p.buffer settled)
        (unfold stops all_texts in (ground arith))
  anthropic_feed_all-concat p (raw ∷ raws) settled =
      rw (feed-append p raw (concat raws), anthropic_feed-cut p raw, feed_all)
        (ap (prepend _) (anthropic_feed_all-concat (after p raw) raws (cut-rest (p.buffer ++ raw))))
