-- ===== src/Tests/Serve.antt =====
-- Runs of the program: a start that serves, a failed accept, and a streaming request to Anthropic.
use ai_switch.Base.{◌≡◌, refl, ◌⊎◌, ◌≢◌, true, false, [], ◌∷◌, none, some, Bool, Bytes, bytes}
use ai_switch.Base.Result.{ok}
use ai_switch.Config.{from_file}
use ai_switch.Adapter.{Adapter, anthropic_adapter}
use ai_switch.Adapter.Chat.{anthropic_body, sort_messages}
use ai_switch.Database.ConnectionPool.{
  new_pool, fill, create_connection, connect, return_connection,
}
use ai_switch.Gateway.Start.{apply_environment}
use ai_switch.Gateway.Main.{
  System, help, options, parse_args, code, with_options, with_config, with_pool,
  serve_until_stopped, main, IsServed, main-IsServed,
}
use ai_switch.Server.{
  Asio, new_server, listen_at, or_throw, or_pass, Server, run, signal, stop, Reach, here, next,
}
use ai_switch.Tests.Toy.{toy_json, toy_mysql, stream_body}

-- A system on which every call succeeds.
abbrev sockets : Asio
sockets = record {
  Net = Unit;
  Address = Bytes;
  make_address = λ s. some s;
  open_acceptor = λ n. (false, n);
  reuse_address = λ n. (false, n);
  bind = λ a p n. (false, n);
  listen = λ k n. (false, n);
}

abbrev machine : System
machine = record {
  read_file = λ path. none;
  environment = record {
    db_password = none;
    deepseek_api_key = none;
    openai_api_key = none;
    anthropic_api_key = none;
  };
  can_spawn = λ n. true;
}

served : (main toy_mysql sockets toy_json machine [] [] tt).exit ≡ code 0
unfolding main parse_args with_options with_config with_pool serve_until_stopped apply_environment
    from_file new_pool fill create_connection connect return_connection new_server listen_at
    or_throw or_pass
served = refl

main-IsServed_example :
    (parse_args [] (bytes "config.json") false ≡ help)
    ⊎ ((path : Bytes) × (set : Bool) × (parse_args [] (bytes "config.json") false
          ≡ options path set)
        × IsServed toy_mysql sockets toy_json machine path set [] tt)
main-IsServed_example = main-IsServed toy_mysql sockets toy_json machine [] [] tt served

-- One accept has failed.
abbrev deaf : Server
deaf = record run { accepting = false }

abbrev signalled : Server
signalled = record deaf { waiting = false; acceptor_open = false; stopped = true }

to_signalled : Reach deaf signalled
unfolding stop
to_signalled = next here (signal refl refl)

abbrev claude : Adapter
claude = anthropic_adapter (bytes "k") (bytes "u/")

abbrev anthropic_text : Bytes
anthropic_text = bytes "modeldeepseek-chatmax_tokenstemperature0.7streammessages"

built : anthropic_body toy_json claude stream_body true ≡ ok anthropic_text
unfolding anthropic_body sort_messages
built = refl

some_piece : (bytes "an answer" ∷ []) ≢ []
some_piece e = cc
