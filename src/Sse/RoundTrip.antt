-- ===== src/Sse/RoundTrip.antt =====
-- What `feed` gives back of the events that `make_chunk` and `make_done_chunk` make.
use ai_switch.Base.{
  ◌≡◌, refl, sym, ap, ◌∙◌, ◌≢◌, true, false, List, [], ◌∷◌, ◌++◌, map, some, Bytes, bytes, str_eq,
  is_empty, arith, append-nil, append_assoc, All, ◌==◌, str_eq_iff,
}
use ai_switch.Stream.Blocks.{
  Cut, cut, IsBlock, IsBlock-cons, cut-block, cut_nil, separator, newline,
}
use ai_switch.Sse.{fresh, prefix, strip, feed, make_chunk, make_done_chunk}
use ai_switch.Sse.Laws.{feed-cut, payload_of, payloads, ends, concat}

-- A message that an event can carry: not empty, not the end mark, and with no blank line.
pub record IsMessage (m : Bytes) : Type 0 where
  pub block : IsBlock m
  pub not_empty : m ≢ []
  pub not_done : m ≢ bytes "[DONE]"

pub strip-prefix : (m : Bytes) → strip (prefix ++ m) ≡ m
unfolding strip str_eq
strip-prefix m = refl

IsBlock-append : (p b : Bytes) → All (λ c. (c == newline) ≡ false) p → IsBlock b → IsBlock (p ++ b)
IsBlock-append [] b _ h = h
IsBlock-append (c ∷ p) b (e, es) h = IsBlock-cons c (p ++ b) e (IsBlock-append p b es h)

IsBlock-prefix : (m : Bytes) → IsBlock m → IsBlock (prefix ++ m)
IsBlock-prefix m h = IsBlock-append prefix m (refl, (refl, (refl, (refl, (refl, (refl, tt)))))) h

not_same : (s t : Bytes) → s ≢ t → str_eq s t ≡ false
not_same s t h = ground (arith, str_eq_iff s t)

is_empty_of_ne : (s : Bytes) → s ≢ [] → is_empty s ≡ false
is_empty_of_ne [] h = absurd (h refl)
is_empty_of_ne (x ∷ s) h = refl

pub payload_of-line :
    (line m : Bytes)
    → strip line ≡ m
    → IsMessage m
    → (payload_of line ≡ m ∷ []) × (str_eq (strip line) (bytes "[DONE]") ≡ false)
unfolding payload_of
payload_of-line line m e h =
    rw (e, not_same m (bytes "[DONE]") h.not_done, is_empty_of_ne m h.not_empty) (refl, refl)

pub cut-make_chunk :
    (m s : Bytes)
    → IsBlock m
    → cut (make_chunk m ++ s)
      ≡ record { blocks = (prefix ++ m) ∷ (cut s).blocks; rest = (cut s).rest }
unfolding make_chunk
cut-make_chunk m s h = cut-block (prefix ++ m) s (IsBlock-prefix m h)

abbrev pub encode : List Bytes → Bytes
encode ms = concat (map make_chunk ms) ++ make_done_chunk

lines : List Bytes → List Bytes
lines [] = bytes "data: [DONE]" ∷ []
lines (m ∷ ms) = (prefix ++ m) ∷ lines ms

cut-encode :
    (ms : List Bytes) → All IsMessage ms → cut (encode ms) ≡ record { blocks = lines ms; rest = [] }
unfolding lines
cut-encode [] _ = unfold make_done_chunk cut in refl
cut-encode (m ∷ ms) (h, hs) =
    ap cut (append_assoc (make_chunk m) (concat (map make_chunk ms)) make_done_chunk)
    ∙ cut-make_chunk m (encode ms) h.block
    ∙ ap (λ (r : Cut). record { blocks = (prefix ++ m) ∷ r.blocks; rest = r.rest })
        (cut-encode ms hs)

payloads-lines :
    (ms : List Bytes) → All IsMessage ms → (payloads (lines ms) ≡ ms) × (ends (lines ms) ≡ true)
unfolding lines payloads ends
payloads-lines [] _ = unfold payload_of strip str_eq in (refl, refl)
payloads-lines (m ∷ ms) (h, hs) =
    let (here, no_end) = payload_of-line (prefix ++ m) m (strip-prefix m) h in
    let (later, at_end) = payloads-lines ms hs in rw (here, no_end, later) (refl, at_end)

-- A new handler that is fed the events of a list of messages and the end mark gives back exactly
-- these messages, in order, with `done` set and no byte kept. The messages are not empty, are not
-- the end mark, and hold no blank line.
pub feed-encode :
    (ms : List Bytes)
    → All IsMessage ms
    → feed fresh (encode ms) ≡ some (record { buffer = []; done = true }, ms)
feed-encode ms h =
    rw (feed-cut fresh (encode ms), cut-encode ms h) (ground (arith, payloads-lines ms h))

cut-split :
    (x y : Bytes)
    → IsBlock x
    → IsBlock y
    → cut (make_chunk (x ++ separator ++ y)) ≡ record { blocks = (prefix ++ x) ∷ y ∷ []; rest = [] }
unfolding make_chunk
cut-split x y hx hy =
    ap (λ t. cut (prefix ++ t)) (append_assoc (x ++ separator) y separator)
    ∙ cut-block (prefix ++ x) (y ++ separator) (IsBlock-prefix x hx)
    ∙ ap (λ (r : Cut). record { blocks = (prefix ++ x) ∷ r.blocks; rest = r.rest })
        (ap cut (sym (append-nil (y ++ separator)))
          ∙ cut-block y [] hy
          ∙ ap (λ (r : Cut). record { blocks = y ∷ r.blocks; rest = r.rest }) cut_nil)

-- A content with a blank line inside does not survive: where the parts around the blank line are
-- messages and the second does not begin with the prefix, one chunk made of it comes out of a new
-- handler as the two parts.
pub feed-make_chunk_split :
    (x y : Bytes)
    → IsMessage x
    → IsMessage y
    → strip y ≡ y
    → feed fresh (make_chunk (x ++ separator ++ y)) ≡ some (fresh, x ∷ y ∷ [])
unfolding payloads ends
feed-make_chunk_split x y hx hy plain =
    rw
      (
        feed-cut fresh (make_chunk (x ++ separator ++ y)),
        cut-split x y hx.block hy.block,
        (payload_of-line (prefix ++ x) x (strip-prefix x) hx).0,
      )
      (ground
        (arith, payload_of-line (prefix ++ x) x (strip-prefix x) hx, payload_of-line y y plain hy))
