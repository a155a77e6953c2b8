-- ===== src/Server.antt =====
-- src/server/http_server.h and src/server/http_server.cpp: the start of the server over Boost.Asio, which
-- this repository does not hold, as a parameter; and its event loop as steps, one for each callback.
pub mod Accept
use ai_switch.Base.{ℕ, ◌+◌, ◌≡◌, Bool, true, false, Option, none, some, Bytes, bytes, if◌then◌else◌}
use ai_switch.Base.Int.{ℤ, pos_part}
use ai_switch.Base.Result.{
  Result, ok, throw, runtime_error, Eff, return, lift, continue, ◌>>=◌, ◌>>◌,
}
use ai_switch.Config.{AppConfig}

-- `Net` is the state of the sockets; each operation tells whether it failed.
pub record Asio : Type 1 where
  pub Net : Type 0
  pub Address : Type 0
  pub make_address : Bytes → Option Address
  pub open_acceptor : Net → Bool × Net
  pub reuse_address : Net → Bool × Net
  pub bind : Address → ℕ → Net → Bool × Net
  pub listen : ℕ → Net → Bool × Net

module _ (A : Asio) where
  open A use {Net, Address, make_address, open_acceptor, reuse_address, bind, listen}

  -- `if (ec) throw std::runtime_error(…)`
  unfoldable pub or_throw : Bytes → (Net → Bool × Net) → Eff Net (Unit {0})
  or_throw message operation net =
      let (failed, net') = operation net in
      (if failed then throw (runtime_error message) else ok tt, net')

  -- An error that is logged and let pass.
  unfoldable pub or_pass : (Net → Bool × Net) → Eff Net (Unit {0})
  or_pass operation net = return tt (operation net).1

  unfoldable pub listen_at : Address → ℕ → Eff Net (Unit {0})
  listen_at address port = do
    or_throw (bytes "acceptor open failed") open_acceptor
    or_pass reuse_address
    or_throw (bytes "bind failed") (bind address port)
    or_throw (bytes "listen failed") (listen 10)

  -- The constructor.
  unfoldable pub new_server : AppConfig → Eff Net (Unit {0})
  new_server config = elim (make_address config.host) [
    | none ↦ lift (throw (runtime_error (bytes "invalid host address")))
    | some address ↦ listen_at address config.port
  ]

-- The threads that run the event loop: the workers and the main thread.
abbrev pub event_threads : AppConfig → ℕ
event_threads config = pos_part config.thread_count + 1

pub record Server : Type 0 where
  -- Whether an `async_accept` and the `async_wait` for a signal are pending.
  pub accepting : Bool
  pub waiting : Bool
  pub acceptor_open : Bool
  pub stopped : Bool
  -- The sessions that were made so far.
  pub sessions : ℕ

-- What `run` starts.
abbrev pub run : Server
run = record {
  accepting = true;
  waiting = true;
  acceptor_open = true;
  stopped = false;
  sessions = 0;
}

-- `stop`
unfoldable pub stop : Server → Server
stop s = record s { acceptor_open = false; stopped = true }

pub data Step (s : Server) : Server → Type 0 where
  -- A connection has come: a session is made, and the next accept is started.
  accept : s.stopped ≡ false → s.accepting ≡ true → Step s (record s { sessions = s.sessions + 1 })
  accept_error : s.stopped ≡ false → s.accepting ≡ true → Step s (record s { accepting = false })
  signal : s.stopped ≡ false → s.waiting ≡ true → Step s (stop (record s { waiting = false }))
  -- The wait has failed.
  signal_error : s.stopped ≡ false → s.waiting ≡ true → Step s (record s { waiting = false })

pub data Reach (s : Server) : Server → Type 0 where
  here : Reach s s
  next : {t u : Server} → Reach s t → Step t u → Reach s u
