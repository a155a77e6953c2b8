-- ===== src/Session/Connection.antt =====
-- src/server/session.h and src/server/session.cpp: the callbacks of one connection in the order in which
-- the event loop calls them. At most one of a read, the write of a response and the write of a header is
-- pending, but any number of chunks may be. A request whose handling throws or is undefined ends the
-- program and has no step.
pub mod Answers
pub mod Streams
use ai_switch.Base.{◌≡◌, Bool, true, false, List, [], ◌∷◌, ◌++◌}
use ai_switch.Base.Result.{ok}
use ai_switch.Json.{JsonLib}
use ai_switch.Http.{Request, Response}
use ai_switch.Router.{Routes}
use ai_switch.Middleware.{Middleware}
use ai_switch.Adapter.{Adapter}
use ai_switch.Session.{
  Session, new_session, Action, write, stream, handle_request, Next, read, handle, close, nothing,
  on_read, on_write, on_header, on_chunk,
}

-- What a connection waits for; `left` is none of these, with the connection open.
pub data Pending : Type 0 where
  reading : Pending
  writing : (res : Response) → Pending
  heading : Pending
  streaming : Pending
  left : Pending
  down : Pending

abbrev pub started : {json : JsonLib} → Action json → Pending
started (write res) = writing res
started (stream ai body) = heading

-- `S` is the state that the sessions share; the newest request and response come first.
pub record Connection (S : Type 0) : Type 0 where
  pub session : Session
  pub pending : Pending
  pub shared : S
  pub requests : List Request
  pub responses : List Response

-- What a callback leaves the connection with; `handle` stands for the stream behind a header.
abbrev pub pending_of : Next → Pending
pending_of read = reading
pending_of handle = streaming
pending_of close = down
pending_of nothing = left

abbrev pub stream_pending_of : Next → Pending
stream_pending_of read = reading
stream_pending_of handle = streaming
stream_pending_of close = down
stream_pending_of nothing = streaming

abbrev pub after : {S : Type 0} → Session × Next → Connection S → Connection S
after (s, next) c = record c { session = s; pending = pending_of next }

module _ (json : JsonLib) {S : Type 0} (chain : List (Middleware S)) (routes : Routes S)
    (adapters : List Adapter) (need_eof : Response → Bool) where
  pub data Step (c : Connection S) : Connection S → Type 0 where
    request :
        (req : Request) (s' : Session) (act : Action json) (w' : S)
        → c.pending ≡ reading
        → handle_request json chain routes adapters (on_read false c.session).0 req c.shared
          ≡ (ok (s', act), w')
        → Step c (record c {
          session = s';
          pending = started act;
          shared = w';
          requests = req ∷ c.requests;
        })
    read_error : c.pending ≡ reading → Step c (after (on_read true c.session) c)
    written :
        (res : Response)
        → c.pending ≡ writing res
        → Step c (
            after
              (on_write false (need_eof res) c.session)
              (record c { responses = res ∷ c.responses }))
    write_error :
        (res : Response)
        → c.pending ≡ writing res
        → Step c (after (on_write true (need_eof res) c.session) c)
    header_written : (ec : Bool) → c.pending ≡ heading → Step c (after (on_header ec c.session) c)
    chunk_written :
        (done ec : Bool)
        → c.pending ≡ streaming
        → Step c (record c {
          session = (on_chunk done ec c.session).0;
          pending = stream_pending_of (on_chunk done ec c.session).1;
        })
    -- Another session or thread.
    other : (w' : S) → Step c (record c { shared = w' })

  pub data Reach (c : Connection S) : Connection S → Type 0 where
    here : Reach c c
    next : {d e : Connection S} → Reach c d → Step d e → Reach c e

-- `run` has started the first read.
abbrev pub accepted : {S : Type 0} → S → Connection S
accepted w = record {
  session = new_session;
  pending = reading;
  shared = w;
  requests = [];
  responses = [];
}
