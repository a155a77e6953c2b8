-- ===== src/Lib.antt =====
-- A model of AI-switch, an HTTP gateway in front of AI providers, and theorems about it.
--
-- A request comes in on a session (src/server/session.cpp), goes through the chain of the links
-- (src/middleware) for authentication, the limit of the rate and the log, and is then either turned
-- into a stream from a provider or handed to the handler of its route (src/server/router.cpp,
-- src/main.cpp). The first link asks the repository (src/db), the second the token bucket
-- (src/middleware/rate_limiter.cpp); the handlers ask an adapter (src/adapter), which the factory
-- chooses by the name of the model. What a provider streams is taken apart by src/stream/sse_handler.cpp
-- or by the parser of src/adapter/anthropic_adapter.cpp.
--
-- Files:
--   Base, Base/*: bytes, numbers and lists; Base/Threads: a family of thread states and its
--     totals; Base/Result: exceptions, undefined behaviour (`fault`) and changes of a state;
--     Base/Numbers: std::stoll, std::stoi and std::to_string
--   Stream/Blocks: a byte stream cut at blank lines, as a recursive description; Stream/Drain:
--     the loop that both parsers run
--   Sse, Sse/*: sse_handler::feed, make_chunk and make_done_chunk
--   RateLimiter: token_bucket as one thread uses it (refill, try_acquire, update_config); Bounds,
--     Budget: what a call and a history of calls do; Race: many threads, one step for each access
--     to the clock, the mutex and the counter
--   Json, Http, Database/Mysql, Adapter/Curl: nlohmann::json, Boost.Beast, the MySQL client and
--     libcurl, as parameters
--   Router: router::make_key, add_route, dispatch and the makers of responses
--   Database/ConnectionPool, Database/Repository: connection_pool and repository;
--     ConnectionPool/Threads: any number of threads that borrow and return;
--     ConnectionPool/Notify: the same with the condition variable, where a thread sleeps and
--     `notify_one` wakes it; Repository/History: any history of calls; Repository/Created: the
--     numbers of a key in the range of their types; Repository/Table: the table of bootstrap.sql, without
--     connections and SQL, and what a server is relied on for; Repository/Shared: the calls of any
--     number of threads on one pool and one server
--   Middleware, Middleware/*: middleware_chain, log_middleware, auth_middleware and
--     rate_limiter_middleware; Auth/Created, Auth/Revoked: a client with a key that was created,
--     or disabled
--   Adapter, Adapter/*: adapter_factory, the constructors, anthropic_stream_parser,
--     chat_completion of both kinds of adapter (Adapter/Chat, Adapter/System), the streams of the
--     OpenAI-compatible ones (Adapter/Streaming) and those of Anthropic
--     (Adapter/Anthropic/Transfer)
--   Config, Config/Laws: app_config::from_file (src/util/config.cpp)
--   ThreadPool: the workers, the queue and the shutdown of thread_pool
--     (src/util/thread_pool.cpp); Queue: the pool as a queue; Signals: the same with the calls
--     of `notify_one`
--   Session: session::handle_request and the callbacks of its reads and writes;
--     Session/Connection: the callbacks of one connection as steps; Session/Task: the task of a
--     stream, with what it posts; Session/Delivery: the threads of the event loop that run what
--     was posted, a step for each handler
--   Server: http_server, its start over Boost.Asio and its event loop as steps
--   Gateway: the chain of main.cpp and one request through it; Gateway/Handlers: the handlers and
--     the routes of main.cpp; Gateway/Start: its environment variables and adapters; Access,
--     Admin: what the chain and the handlers guard; Chat: a chat without a stream; Relay: a
--     stream from the provider to the client; Disabled: a request with a key that
--     was disabled; Escape, Typed: exceptions that nothing catches;
--     Gateway/Main: the command line, the start of the parts and the exit code
--   Tests, */Tests: runs on concrete values; Tests/Bucket: the scenarios of
--     tests/test_rate_limiter.cpp that one thread runs
--
-- A std::string is a list of bytes, and a literal the bytes of its UTF-8 form. An int64_t that overflows
-- is undefined and ends a run (`none`, `fault`), or is noted (`overflown` in RateLimiter/Race). A clock reading is a number of nanoseconds and an
-- argument. `Stream.Drain.drain` runs on fuel: each round erases two bytes at least, so that fuel above
-- the length of the buffer, which both parsers give it, is enough; no other definition needs fuel but
-- the digits of a number, of which there are fewer than the number plus one. What code that throws has
-- changed before stays changed.
--
-- Where several threads run, each access to what they share is a step of a relation, or each stretch
-- under one mutex, and a theorem about what is reached holds in every interleaving.
--
-- Not modelled: the futures of the pool's tasks, the bytes of a write on their way (a write is one step
-- when it is started), the end of the program behind the exit code, and the limits of time but as steps
-- that may be taken; the host, the user, the password, the database and the port that the connection pool
-- hands on to MySQL; undefined behaviour of nlohmann::json inside the try block of a stream's callback, which
-- is taken for an exception there. Logging has no effect on the state and is left out. The scenario of many
-- threads in the test program is left out.
pub mod Base
pub mod Stream
pub mod Sse
pub mod RateLimiter
pub mod Json
pub mod Http
pub mod Router
pub mod Database
pub mod Middleware
pub mod Adapter
pub mod Session
pub mod Config
pub mod ThreadPool
pub mod Server
pub mod Gateway
pub mod Tests
