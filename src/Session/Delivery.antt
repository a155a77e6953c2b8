-- ===== src/Session/Delivery.antt =====
-- src/server/session.cpp, lines 114-135: a task of the thread pool posts a handler for each call by the
-- adapter, and the threads that run the event loop (`n` of them, src/server/http_server.cpp) take the
-- handlers from its queue. No strand keeps the handlers of a session apart. Each handler starts its
-- writes in one step.
pub mod Order
use ai_switch.Base.{
  ℕ, ◌<◌, ◌≡◌, Bool, true, false, List, [], ◌∷◌, ◌++◌, Option, none, some, Bytes, bytes,
}
use ai_switch.Base.Threads.{update}
use ai_switch.Sse.{make_chunk}
use ai_switch.Adapter.Streaming.{Call}
use ai_switch.Session.{Session, send_stream_chunk}

-- A handler that is posted: for a call by the adapter, or for the exception that ended it.
pub data Posted : Type 0 where
  chunk : Call → Posted
  failure : (message : Bytes) → Posted

abbrev pub error_event : Bytes → Bytes
error_event message =
    bytes "data: {\"error\":{\"code\":\"provider_error\",\"message\":\""
    ++ message
    ++ bytes "\"}}\n\n"

-- The writes that one `send_stream_chunk` starts.
unfoldable pub started : Bytes → Bool → Session → List Bytes
started chunk_data is_done s = elim (send_stream_chunk chunk_data is_done s) [
  | none ↦ []
  | some (sent, _) ↦ sent ∷ []
]

unfoldable pub handler_writes : Posted → Session → List Bytes
handler_writes (chunk c) s = started (make_chunk c.content) c.done s
handler_writes (failure message) s = started (error_event message) false s ++ started [] true s

unfoldable pub deliver : List Posted → Session → List Bytes
deliver [] s = []
deliver (p ∷ ps) s = handler_writes p s ++ deliver ps s

pub record Delivery : Type 0 where
  pub session : Session
  pub queue : List Posted
  -- The handler that a thread runs.
  pub pc : ℕ → Option Posted
  -- All that were posted, and all writes that were started, so far.
  pub posted : List Posted
  pub written : List Bytes

pub data Step (n : ℕ) (d : Delivery) : Delivery → Type 0 where
  post :
      (p : Posted) → Step n d (record d { queue = d.queue ++ p ∷ []; posted = d.posted ++ p ∷ [] })
  pick :
      (i : ℕ) (p : Posted) (rest : List Posted)
      → i < n
      → d.pc i ≡ none
      → d.queue ≡ p ∷ rest
      → Step n d (record d { queue = rest; pc = update d.pc i (some p) })
  run :
      (i : ℕ) (p : Posted)
      → i < n
      → d.pc i ≡ some p
      → Step n d
          (record d { pc = update d.pc i none; written = d.written ++ handler_writes p d.session })

pub data Reach (n : ℕ) (d : Delivery) : Delivery → Type 0 where
  here : Reach n d d
  next : {e f : Delivery} → Reach n d e → Step n e f → Reach n d f

abbrev pub begin : Session → Delivery
begin s = record { session = s; queue = []; pc = λ i. none; posted = []; written = [] }
