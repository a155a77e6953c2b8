-- ===== src/Tests/Issue.antt =====
-- A key, and a request that holds it.
use ai_switch.Base.{
  ℕ, ◌≡◌, refl, true, false, List, [], ◌∷◌, ◌++◌, some, Bytes, bytes, find, str_eq, arith,
}
use ai_switch.Base.Int.{pos}
use ai_switch.Database.Repository.{ApiKeyInfo}
use ai_switch.Database.Repository.Created.{IsInRange}
use ai_switch.Middleware.{Context, new_context}
use ai_switch.Middleware.Auth.{bearer, is_public}
use ai_switch.Tests.Toy.{request}

abbrev pub drawn : List ℕ
drawn =
    10 ∷ 1 ∷ 1 ∷ 1 ∷ 1 ∷ 1 ∷ 1 ∷ 1 ∷ 1 ∷ 1 ∷ 1 ∷ 1 ∷ 1 ∷ 1 ∷ 1 ∷ 1 ∷ 1 ∷ 1 ∷ 1 ∷ 1 ∷ 1 ∷ 1 ∷ 1 ∷ 1
    ∷ 1 ∷ 1 ∷ 1 ∷ 1 ∷ 1 ∷ 1 ∷ 1 ∷ 15 ∷ []

abbrev pub key : Bytes
key = bytes "sk_a111111111111111111111111111111f"

abbrev pub info : ApiKeyInfo
info = record { id = pos 7; api_key = key; name = bytes "two"; rate_limit = pos 5; enabled = true }

pub in_range : IsInRange info
in_range = record {
  id_least = omega arith;
  id_most = omega arith;
  limit_least = omega arith;
  limit_most = omega arith;
}

abbrev pub ctx : Context
ctx = new_context (request (bytes "/api/chat") (some (bearer ++ key)) [])

pub guarded : is_public (bytes "/api/chat") ≡ false
unfolding is_public str_eq find
guarded = refl
