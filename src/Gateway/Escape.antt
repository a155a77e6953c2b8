-- ===== src/Gateway/Escape.antt =====
-- Exceptions that leave `session::handle_request`. Its callers are callbacks of the event loop, and no
-- thread that runs the loop catches them.
use ai_switch.Base.{ℕ, ◌≡◌, ap, ◌∙◌, Bool, true, List, none, some, bytes, arith}
use ai_switch.Base.Int.{pos}
use ai_switch.Base.Result.{Exception, throw}
use ai_switch.Json.{JsonLib}
use ai_switch.Http.{Request}
use ai_switch.Router.{
  Routes, make_key, find_route, dispatch, make_error_response, error_body, not_found_message,
}
use ai_switch.Database.Mysql.{Mysql}
use ai_switch.RateLimiter.{TokenBucket, try_acquire}
use ai_switch.Middleware.{new_context, process, log}
use ai_switch.Middleware.Auth.{authenticate, is_public}
use ai_switch.Middleware.RateLimit.{limit}
use ai_switch.Adapter.{Adapter}
use ai_switch.Adapter.Curl.{Curl}
use ai_switch.Session.{Session, handle_request, after_chain, after_try, try_stream, route}
use ai_switch.Gateway.{World, chain, serve}

module _ (M : Mysql) (C : Curl) (json : JsonLib) where
  open M use {Db}
  open C use {Net}
  open json use {parse, dump}

  dispatch-throw :
      (routes : Routes (World Db Net)) (req : Request) (w : World Db Net) (e : Exception)
      → find_route (make_key req.method req.target) routes ≡ none
      → dump (error_body json (bytes "not_found") (not_found_message req.target)) ≡ throw e
      → dispatch json routes req w ≡ (throw e, w)
  unfolding dispatch make_error_response
  dispatch-throw routes req w e missing undumped = ground (arith, missing, undumped)

  try_stream-throw :
      (adapters : List Adapter) (req : Request) (b : Bool) (e : Exception)
      → parse req.body ≡ throw e
      → try_stream json adapters req b ≡ (b, throw e)
  unfolding try_stream
  try_stream-throw adapters req b e unparsed = ground (arith, unparsed)

  after_try-throw :
      (routes : Routes (World Db Net)) (req : Request) (s : Session) (b : Bool) (w : World Db Net)
      (e e' : Exception)
      → dispatch json routes req w ≡ (throw e, w)
      → after_try json routes req s (b, throw e') w ≡ (throw e, w)
  unfolding after_try route
  after_try-throw routes req s b w e e' thrown = ground (arith, thrown)

  -- A request with a public path, with a key or without, whose path has no route and whose body is no
  -- JSON: where the bucket grants it a token, and the JSON library throws when it writes the answer with
  -- the path in it, the exception leaves the handling of the request.
  pub serve_public-throw :
      (routes : Routes (World Db Net)) (adapters : List Adapter) (now now2 : ℕ) (s : Session)
      (req : Request) (w : World Db Net) (b' : TokenBucket) (e e' : Exception)
      → is_public req.target ≡ true
      → try_acquire now now2 (pos 1) w.bucket ≡ some (b', true)
      → parse req.body ≡ throw e'
      → find_route (make_key req.method req.target) routes ≡ none
      → dump (error_body json (bytes "not_found") (not_found_message req.target)) ≡ throw e
      → serve M C json routes adapters now now2 s req w ≡ (throw e, record w { bucket = b' })
  unfolding serve chain process log authenticate limit handle_request after_chain new_context
  serve_public-throw routes adapters now now2 s req w b' e e' open_path granted unparsed missing
        undumped =
      simp (open_path, granted)
        (ap (λ t. after_try json routes req s t (record w { bucket = b' }))
            (try_stream-throw adapters req s.is_streaming e' unparsed)
          ∙ after_try-throw routes req s s.is_streaming (record w { bucket = b' }) e e'
              (dispatch-throw routes req (record w { bucket = b' }) e missing undumped))
