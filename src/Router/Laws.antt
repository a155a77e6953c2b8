-- ===== src/Router/Laws.antt =====
-- Which handler a request reaches.
use ai_switch.Base.{
  ◌≡◌, refl, ap, ◌∙◌, Bool, true, false, ◌&&◌, [], ◌∷◌, Option, some, Bytes, str_eq, str_eq_iff,
  arith, if◌then◌else◌, All, ◌==◌,
}
use ai_switch.Json.{JsonLib}
use ai_switch.Http.{Request}
use ai_switch.Router.{Handler, Routes, make_key, set_route, find_route, add_route, dispatch, answer}

abbrev pub NoSpace : Bytes → Type 0
NoSpace = All (λ c. (c == 32) ≡ false)

-- Two methods that hold no space, joined to their paths, give the same key only where both methods
-- and both paths are the same.
pub make_key-injective :
    (m n p q : Bytes) → NoSpace m → NoSpace n → make_key m p ≡ make_key n q → (m ≡ n) × (p ≡ q)
unfolding make_key
make_key-injective [] [] p q _ _ e = ground arith
make_key-injective [] (y ∷ n) p q _ (h, _) e = ground arith
make_key-injective (x ∷ m) [] p q (h, _) _ e = ground arith
make_key-injective (x ∷ m) (y ∷ n) p q (_, hs) (_, ks) e =
    ground (arith, make_key-injective m n p q hs ks)

key_test :
    (m n p q : Bytes)
    → NoSpace m
    → NoSpace n
    → str_eq (make_key m p) (make_key n q) ≡ (str_eq m n && str_eq p q)
key_test m n p q hm hn = ground (
  arith,
  make_key-injective m n p q hm hn,
  str_eq_iff m n,
  str_eq_iff p q,
  str_eq_iff (make_key m p) (make_key n q),
)

module _ {S : Type 0} where
  find_route-set_route :
      (key k : Bytes) (h : Handler S) (rs : Routes S)
      → find_route k (set_route key h rs) ≡ (if str_eq key k then some h else find_route k rs)
  unfolding find_route set_route
  find_route-set_route key k h [] = refl
  find_route-set_route key k h ((j, g) ∷ rs) =
      ground
        (arith, str_eq_iff key k, str_eq_iff j key, str_eq_iff j k, find_route-set_route key k h rs)

  find_route-add_route :
      (method path : Bytes) (h : Handler S) (routes : Routes S) (req : Request)
      → NoSpace method
      → NoSpace req.method
      → find_route (make_key req.method req.target) (add_route method path h routes) ≡ (
          if str_eq method req.method && str_eq path req.target
          then some h
          else find_route (make_key req.method req.target) routes)
  unfolding add_route
  find_route-add_route method path h routes req hm hr = rw (
    find_route-set_route (make_key method path) (make_key req.method req.target) h routes,
    key_test method req.method path req.target hm hr,
  )

  answer_if :
      (json : JsonLib) (b : Bool) (h : Handler S) (found : Option (Handler S)) (req : Request)
      → answer json (if b then some h else found) req ≡ (if b then h req else answer json found req)
  answer_if json true h found req = refl
  answer_if json false h found req = refl

  -- After a route is added a request with its method and path, and no other, is handled by it; all
  -- others go where they went before. (Methods hold no space.)
  pub dispatch-add_route :
      (json : JsonLib) (method path : Bytes) (h : Handler S) (routes : Routes S) (req : Request)
      → NoSpace method
      → NoSpace req.method
      → dispatch json (add_route method path h routes) req ≡ (
          if str_eq method req.method && str_eq path req.target
          then h req
          else dispatch json routes req)
  unfolding dispatch
  dispatch-add_route json method path h routes req hm hr =
      ap (λ found. answer json found req) (find_route-add_route method path h routes req hm hr)
      ∙ answer_if json (str_eq method req.method && str_eq path req.target) h
          (find_route (make_key req.method req.target) routes) req
