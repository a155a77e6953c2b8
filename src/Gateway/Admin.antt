-- ===== src/Gateway/Admin.antt =====
-- Who reaches the handlers of the admin interface, and which handler a request reaches.
use ai_switch.Base.{
  ℕ, ◌≡◌, refl, sym, ap, subst, ◌∙◌, ◌≢◌, ◌++◌, some, Option-cases, Bool-cases, ◌⊎◌, inl, inr, Bool,
  true, false, ◌&&◌, List, [], Bytes, bytes, str_eq, str_eq_iff, arith, if◌then◌else◌,
}
use ai_switch.Base.Result.{Result, lift}
use ai_switch.Json.{JsonLib}
use ai_switch.Http.{Request, Response}
use ai_switch.Router.{Handler, Routes, add_route, dispatch}
use ai_switch.Router.Laws.{NoSpace, dispatch-add_route}
use ai_switch.Database.Mysql.{Mysql}
use ai_switch.Adapter.{Adapter}
use ai_switch.Adapter.Curl.{Curl}
use ai_switch.Gateway.{World}
use ai_switch.Gateway.Handlers.{
  verify_admin, handle_health, unauthorized, handle_chat, handle_create, handle_list,
  handle_disable, all_routes,
}

abbrev pub reaches : Bytes → Bytes → Request → Bool
reaches method path req = str_eq method req.method && str_eq path req.target

abbrev admin : Bytes
admin = bytes "/admin/api-keys"

no_space : (m : Bytes) (req : Request) → req.method ≡ m → NoSpace m → NoSpace req.method
no_space m req e h = subst NoSpace (sym e) h

same : {m p : Bytes} (req : Request) → req.method ≡ m → req.target ≡ p → reaches m p req ≡ true
same {m} {p} req e f = ground (arith, str_eq_iff m req.method, str_eq_iff p req.target)

dispatch-added :
    {S : Type 0} (json : JsonLib) (method path : Bytes) (h : Handler S) (routes : Routes S)
    (req : Request) {rest : S → Result Response × S}
    → NoSpace method
    → NoSpace req.method
    → dispatch json routes req ≡ rest
    → dispatch json (add_route method path h routes) req
      ≡ (if reaches method path req then h req else rest)
dispatch-added json method path h routes req hm hr e =
    dispatch-add_route json method path h routes req hm hr
    ∙ ap (λ r. if reaches method path req then h req else r) e

module _ (json : JsonLib) (M : Mysql) (C : Curl) (adapters : List Adapter) (master_key : Bytes)
    (drawn : List ℕ) where
  open M use {Db}
  open C use {Net}

  -- The table of the routes: which handler a request reaches by its method and its path, and that all
  -- others reach none, where a method holds no space.
  pub dispatch-all_routes :
      (req : Request)
      → NoSpace req.method
      → dispatch json (all_routes json M C adapters master_key drawn) req ≡ (
          if reaches (bytes "DELETE") (bytes "/admin/api-keys") req
          then handle_disable json M C master_key req
          else if reaches (bytes "GET") (bytes "/admin/api-keys") req
          then handle_list json M C master_key req
          else if reaches (bytes "POST") (bytes "/admin/api-keys") req
          then handle_create json M C master_key drawn req
          else if reaches (bytes "POST") (bytes "/api/chat") req
          then handle_chat json M C adapters req
          else if reaches (bytes "GET") (bytes "/health") req
          then lift (handle_health json req)
          else dispatch {S = World Db Net} json [] req)
  unfolding all_routes
  dispatch-all_routes req h =
      dispatch-added json (bytes "DELETE") admin (handle_disable json M C master_key) _ req
        (refl, (refl, (refl, (refl, (refl, (refl, tt)))))) h
        (dispatch-added json (bytes "GET") admin (handle_list json M C master_key) _ req
          (refl, (refl, (refl, tt))) h
          (dispatch-added json (bytes "POST") admin (handle_create json M C master_key drawn) _ req
            (refl, (refl, (refl, (refl, tt)))) h
            (dispatch-added json (bytes "POST") (bytes "/api/chat") (handle_chat json M C adapters)
              _ req (refl, (refl, (refl, (refl, tt)))) h
              (dispatch-added json (bytes "GET") (bytes "/health")
                (λ r. lift (handle_health json r)) [] req (refl, (refl, (refl, tt))) h refl))))

  keyless :
      (req : Request)
      → req.authorization ≢ some (bytes "Bearer " ++ master_key)
      → verify_admin master_key req ≡ false
  unfolding verify_admin
  keyless req other = elim (Option-cases req.authorization) [
    | inl missing ↦ ground arith
    | inr (v, present) ↦ elim (Bool-cases (str_eq v (bytes "Bearer " ++ master_key))) [
      | inl equal ↦
          absurd
            (other (present ∙ ap some ((str_eq_iff v (bytes "Bearer " ++ master_key)).0 equal)))
      | inr differs ↦ ground arith
    ]
  ]

  guarded :
      (req : Request) (w : World Db Net)
      → NoSpace req.method
      → reaches (bytes "DELETE") admin req ≡ true
        ⊎ (reaches (bytes "GET") admin req ≡ true ⊎ reaches (bytes "POST") admin req ≡ true)
      → verify_admin master_key req ≡ false
      → dispatch json (all_routes json M C adapters master_key drawn) req w
        ≡ (unauthorized json req, w)
  unfolding handle_disable handle_list handle_create
  guarded req w h m v = ap (λ f. f w) (dispatch-all_routes req h) ∙ ground arith

  -- A GET, POST or DELETE request to /admin/api-keys whose Authorization header is missing or is not
  -- `Bearer ` with the master key behind it changes nothing, and gets the response with status 401.
  pub dispatch_admin_guarded :
      (req : Request) (w : World Db Net)
      → (req.method ≡ bytes "GET") ⊎ ((req.method ≡ bytes "POST") ⊎ (req.method ≡ bytes "DELETE"))
      → req.target ≡ bytes "/admin/api-keys"
      → req.authorization ≢ some (bytes "Bearer " ++ master_key)
      → dispatch json (all_routes json M C adapters master_key drawn) req w
        ≡ (unauthorized json req, w)
  dispatch_admin_guarded req w (inl m) t other =
      guarded req w (no_space (bytes "GET") req m (refl, (refl, (refl, tt))))
        (inr (inl (same req m t))) (keyless req other)
  dispatch_admin_guarded req w (inr (inl m)) t other =
      guarded req w (no_space (bytes "POST") req m (refl, (refl, (refl, (refl, tt)))))
        (inr (inr (same req m t))) (keyless req other)
  dispatch_admin_guarded req w (inr (inr m)) t other =
      guarded req w
        (no_space (bytes "DELETE") req m (refl, (refl, (refl, (refl, (refl, (refl, tt)))))))
        (inl (same req m t)) (keyless req other)
