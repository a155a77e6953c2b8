-- ===== src/Session/Delivery/Order.antt =====
-- In which order the chunks of a stream are written.
use ai_switch.Base.{
  ℕ, ◌<◌, ◌≤◌, ◌≡◌, refl, sym, ap, ◌∙◌, true, List, [], ◌∷◌, ◌++◌, Option, none, some, Bytes, arith,
  append_assoc, append-nil,
}
use ai_switch.Base.Threads.{update}
use ai_switch.Sse.{make_chunk}
use ai_switch.Adapter.Streaming.{content_call}
use ai_switch.Session.{Session, send_stream_chunk}
use ai_switch.Session.Delivery.{
  Posted, chunk, started, handler_writes, deliver, Delivery, Step, post, pick, run, Reach, here,
  next, begin,
}

pub deliver-append :
    (ps qs : List Posted) (s : Session) → deliver (ps ++ qs) s ≡ deliver ps s ++ deliver qs s
unfolding deliver
deliver-append [] qs s = refl
deliver-append (p ∷ ps) qs s =
    ap (λ r. handler_writes p s ++ r) (deliver-append ps qs s)
    ∙ sym (append_assoc (handler_writes p s) (deliver ps s) (deliver qs s))

-- What a thread has still to write.
abbrev pub running : Option Posted → Session → List Bytes
running none s = []
running (some p) s = handler_writes p s

record IsInOrder (s : Session) (d : Delivery) : Type 0 where
  same : d.session ≡ s
  order : deliver d.posted s ≡ d.written ++ running (d.pc 0) s ++ deliver d.queue s

zero_only : (i : ℕ) → i < 1 → i ≡ 0
zero_only i h = omega arith

Step-IsInOrder : (s : Session) {d e : Delivery} → Step 1 d e → IsInOrder s d → IsInOrder s e
unfolding deliver
Step-IsInOrder s {d} (post p) v = record {
  same = v.same;
  order =
      deliver-append d.posted (p ∷ []) s
      ∙ ap (λ l. l ++ deliver (p ∷ []) s) v.order
      ∙ append_assoc (d.written ++ running (d.pc 0) s) (deliver d.queue s) (deliver (p ∷ []) s)
      ∙ ap (λ l. d.written ++ running (d.pc 0) s ++ l) (sym (deliver-append d.queue (p ∷ []) s));
}
Step-IsInOrder s {d} (pick i p rest h e f) v = record {
  same = v.same;
  order =
      v.order
      ∙ ground (
        arith,
        zero_only i h,
        append-nil d.written,
        append_assoc d.written (handler_writes p s) (deliver rest s),
      );
}
Step-IsInOrder s {d} (run i p h e) v = record {
  same = v.same;
  order =
      v.order ∙ ground (arith, zero_only i h, v.same, append-nil (d.written ++ handler_writes p s));
}

Reach-IsInOrder : (s : Session) {d : Delivery} → Reach 1 (begin s) d → IsInOrder s d
unfolding deliver
Reach-IsInOrder s here = record { same = refl; order = refl }
Reach-IsInOrder s (next r st) = Step-IsInOrder s st (Reach-IsInOrder s r)

-- Where one thread runs the event loop, the writes started so far, those of the handler that it runs
-- and those of the handlers in the queue are the writes of all handlers posted, in the order of their
-- posting.
pub Reach-one_thread :
    (s : Session) {d : Delivery}
    → Reach 1 (begin s) d
    → deliver d.posted s ≡ d.written ++ running (d.pc 0) s ++ deliver d.queue s
Reach-one_thread s r = (Reach-IsInOrder s r).order

-- Where two threads or more run the event loop, a session whose header is sent can start the writes of
-- two chunks in the opposite order of their posting.
pub overtaken_chunk :
    (n : ℕ) (s : Session) (x y : Bytes)
    → 2 ≤ n
    → s.stream_headers_sent ≡ true
    → (d : Delivery) × Reach n (begin s) d
      × (d.posted ≡ chunk (content_call x) ∷ chunk (content_call y) ∷ [])
      × (d.written ≡ make_chunk y ∷ make_chunk x ∷ [])
unfolding handler_writes started send_stream_chunk
overtaken_chunk n s x y h sent =
    let px = chunk (content_call x) in
    let py = chunk (content_call y) in
    let d1 : Delivery = record (begin s) { queue = px ∷ py ∷ []; posted = px ∷ py ∷ [] } in
    let d2 : Delivery = record d1 { queue = py ∷ []; pc = update d1.pc 0 (some px) } in
    let d3 : Delivery = record d2 { queue = []; pc = update d2.pc 1 (some py) } in
    let d4 : Delivery = record d3 { pc = update d3.pc 1 none; written = handler_writes py s } in
    (
      record d4 { pc = update d4.pc 0 none; written = d4.written ++ handler_writes px s },
      next
          (next
            (next
              (next (next (next here (post px)) (post py))
                (pick 0 px (py ∷ []) (omega arith) refl refl))
              (pick 1 py [] (omega arith) refl refl))
            (run 1 py (omega arith) refl))
          (run 0 px (omega arith) refl),
      refl,
      ground arith,
    )
