-- ===== src/Session/Connection/Answers.antt =====
-- What a connection answers, and when it is left.
use ai_switch.Base.{◌≡◌, refl, sym, subst, Bool, true, false, List, [], ◌∷◌}
use ai_switch.Base.Result.{ok}
use ai_switch.Json.{JsonLib}
use ai_switch.Http.{Request, Response}
use ai_switch.Router.{Routes}
use ai_switch.Middleware.{Middleware}
use ai_switch.Adapter.{Adapter}
use ai_switch.Session.{
  Session, Action, write, stream, handle_request, on_read, on_write, on_header, on_chunk, closed,
}
use ai_switch.Session.Connection.Streams.{IsStreaming, handle_request-IsStreaming}
use ai_switch.Session.Connection.{
  Pending, reading, writing, heading, streaming, left, down, started, after, Connection, Step,
  request, read_error, written, write_error, header_written, chunk_written, other, Reach, here,
  next, accepted,
}

module _ (json : JsonLib) {S : Type 0} (chain : List (Middleware S)) (routes : Routes S)
    (adapters : List Adapter) (need_eof : Response → Bool) where
  -- The response that the handling of a request starts to write.
  pub record IsAnswer (req : Request) (res : Response) : Type 0 where
    pub s : Session
    pub s' : Session
    pub w : S
    pub w' : S
    pub handled : handle_request json chain routes adapters s req w ≡ (ok (s', write res), w')

  pub data Paired : List Request → List Response → Type 0 where
    none_yet : Paired [] []
    one_more :
        {req : Request} {res : Response} {reqs : List Request} {ress : List Response}
        → IsAnswer req res
        → Paired reqs ress
        → Paired (req ∷ reqs) (res ∷ ress)

  -- What a connection that waits has behind it.
  IsGood : Pending → Connection S → Type 0
  IsGood reading c = (c.session.is_streaming ≡ false) × Paired c.requests c.responses
  IsGood (writing res) c =
      (req : Request) × (reqs : List Request) × (c.requests ≡ req ∷ reqs)
      × IsAnswer req res
      × Paired reqs c.responses
      × ((c.session.is_streaming ≡ true) → IsStreaming json chain req)
  IsGood heading c = Unit {0}
  IsGood streaming c = Unit {0}
  IsGood left c =
      (req : Request) × (reqs : List Request) × (c.requests ≡ req ∷ reqs)
      × IsStreaming json chain req
      × Paired c.requests c.responses
  IsGood down c = Unit {0}

  request-IsGood :
      (c : Connection S) (req : Request) (s' : Session) (act : Action json) (w' : S)
      → IsGood reading c
      → handle_request json chain routes adapters (on_read false c.session).0 req c.shared
        ≡ (ok (s', act), w')
      → IsGood (started act) (record c {
        session = s';
        pending = started act;
        shared = w';
        requests = req ∷ c.requests;
      })
  unfolding IsGood on_read
  request-IsGood c req s' (write res) w' (off, paired) handled = (
    req,
    c.requests,
    refl,
    record { s = c.session; s' = s'; w = c.shared; w' = w'; handled = handled },
    paired,
    λ on.
        handle_request-IsStreaming json chain routes adapters c.session s' req (write res) c.shared
          w' off handled on,
  )
  request-IsGood c req s' (stream ai body) w' good handled = tt

  all-Paired :
      (c : Connection S) (res : Response) (req : Request) (reqs : List Request)
      → c.requests ≡ req ∷ reqs
      → IsAnswer req res
      → Paired reqs c.responses
      → Paired c.requests (res ∷ c.responses)
  all-Paired c res req reqs newest answer paired =
      subst (λ l. Paired l (res ∷ c.responses)) (sym newest) (one_more answer paired)

  written-IsGood :
      (c : Connection S) (res : Response) (eof streams : Bool)
      → c.session.is_streaming ≡ streams
      → IsGood (writing res) c
      → IsGood
          (after
            (on_write false eof c.session)
            (record c { responses = res ∷ c.responses })).pending
          (after (on_write false eof c.session) (record c { responses = res ∷ c.responses }))
  unfolding IsGood on_write closed
  written-IsGood c res true streams f good = tt
  written-IsGood c res false true f (req, reqs, newest, answer, paired, asks) =
      rw f (req, reqs, newest, asks f, all-Paired c res req reqs newest answer paired)
  written-IsGood c res false false f (req, reqs, newest, answer, paired, asks) =
      rw f (refl, all-Paired c res req reqs newest answer paired)

  other-IsGood :
      (p : Pending) (c : Connection S) (w' : S) → IsGood p c → IsGood p (record c { shared = w' })
  unfolding IsGood
  other-IsGood reading c w' good = good
  other-IsGood (writing res) c w' good = good
  other-IsGood heading c w' good = tt
  other-IsGood streaming c w' good = tt
  other-IsGood left c w' good = good
  other-IsGood down c w' good = tt

  at_pending : (c : Connection S) (p : Pending) → c.pending ≡ p → IsGood c.pending c → IsGood p c
  at_pending c p e good = subst (λ q. IsGood q c) e good

  Step-IsGood :
      (c : Connection S) {d : Connection S}
      → Step json chain routes adapters need_eof c d
      → IsGood c.pending c
      → IsGood d.pending d
  unfolding IsGood on_read on_write on_header on_chunk closed
  Step-IsGood c (request req s' act w' e handled) good =
      request-IsGood c req s' act w' (at_pending c reading e good) handled
  Step-IsGood c (read_error e) good = tt
  Step-IsGood c (written res e) good =
      written-IsGood c res (need_eof res) c.session.is_streaming refl
        (at_pending c (writing res) e good)
  Step-IsGood c (write_error res e) good = tt
  Step-IsGood c (header_written true e) good = tt
  Step-IsGood c (header_written false e) good = tt
  Step-IsGood c (chunk_written true ec e) good = tt
  Step-IsGood c (chunk_written false true e) good = tt
  Step-IsGood c (chunk_written false false e) good = tt
  Step-IsGood c (other w') good = other-IsGood c.pending c w' good

  Reach-IsGood :
      (w : S) {c : Connection S}
      → Reach json chain routes adapters need_eof (accepted w) c
      → IsGood c.pending c
  unfolding IsGood
  Reach-IsGood w here = (refl, none_yet)
  Reach-IsGood w (next r st) = Step-IsGood _ st (Reach-IsGood w r)

  -- A connection that waits for a request is not in its streaming state, and has answered each request
  -- before, in their order, by the response that its handling started to write, whatever the other
  -- sessions and threads do in between.
  pub Reach-Paired :
      (w : S) {c : Connection S}
      → Reach json chain routes adapters need_eof (accepted w) c
      → c.pending ≡ reading
      → (c.session.is_streaming ≡ false) × Paired c.requests c.responses
  unfolding IsGood
  Reach-Paired w {c} r e = at_pending c reading e (Reach-IsGood w r)

  -- A connection that is left open with nothing to wait for has answered all its requests, and the last
  -- one passed the chain and asked for a stream.
  pub Reach-IsStreaming :
      (w : S) {c : Connection S}
      → Reach json chain routes adapters need_eof (accepted w) c
      → c.pending ≡ left
      → (req : Request) × (reqs : List Request) × (c.requests ≡ req ∷ reqs)
        × IsStreaming json chain req
        × Paired c.requests c.responses
  unfolding IsGood
  Reach-IsStreaming w {c} r e = at_pending c left e (Reach-IsGood w r)
