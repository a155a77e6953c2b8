-- ===== src/Database/Repository/Table.antt =====
-- The table `api_keys` of bootstrap.sql as the statements of src/db/repository.cpp leave it and answer
-- from it: what the repository promises, without connections, SQL and conversions.
pub mod Server
pub mod Rows
pub mod Calls
pub mod Refined
pub mod Revoked
use ai_switch.Base.{
  ℕ, suc, ◌+◌, ◌≤◌, Bool, true, false, not, ◌&&◌, List, [], ◌∷◌, ◌++◌, map, Option, none, some,
  Bytes, if◌then◌else◌, ltb,
}
use ai_switch.Base.Int.{ℤ, leb_ℤ}
use ai_switch.Database.Repository.{
  ApiKeyInfo, no_info, ApiKeyResult, not_found, created, generate_api_key,
}
use ai_switch.Database.Repository.Created.{found_result}
use ai_switch.Database.Repository.History.{Operation, find, create, list, disable}

-- The keys in the order of their numbers, and the number of the next one.
pub record KeyTable : Type 0 where
  pub keys : List ApiKeyInfo
  pub next_id : ℕ

-- What a call of the repository returns.
pub data Answer : Type 0 where
  found : ApiKeyResult → Answer
  made : ApiKeyInfo → Answer
  listed : List ApiKeyInfo → Answer
  disabled : Bool → Answer

abbrev pub same_id : ℤ → ℤ → Bool
same_id a b = leb_ℤ a b && leb_ℤ b a

abbrev pub disable_if : ℤ → ApiKeyInfo → ApiKeyInfo
disable_if id info = record info { enabled = info.enabled && not (same_id info.id id) }

-- The rows that the update changes.
abbrev pub changed : ℤ → List ApiKeyInfo → ℕ
changed id [] = 0
changed id (info ∷ rest) = (if same_id info.id id && info.enabled then 1 else 0) + changed id rest

abbrev pub disable_all : ℤ → List ApiKeyInfo → List ApiKeyInfo
disable_all id [] = []
disable_all id (info ∷ rest) = disable_if id info ∷ disable_all id rest

abbrev pub if_enabled : Option ApiKeyInfo → ApiKeyResult
if_enabled none = not_found
if_enabled (some info) = if info.enabled then found_result info else not_found

-- `same` is the comparison of the column `api_key`, as its collation has it.
module _ (same : Bytes → Bytes → Bool) where
  abbrev pub find_key : Bytes → List ApiKeyInfo → Option ApiKeyInfo
  find_key key [] = none
  find_key key (info ∷ rest) =
      let later = find_key key rest in if same info.api_key key then some info else later

  -- The column is unique: a key that is there is not inserted again, but its number is used up.
  abbrev pub insert : Bytes → Bytes → ℤ → KeyTable → ApiKeyInfo × KeyTable
  insert key name limit t = elim (find_key key t.keys) [
    | none ↦
        let info = created t.next_id key name limit in
        (info, record { keys = t.keys ++ info ∷ []; next_id = suc t.next_id })
    | some info ↦ (no_info, record t { next_id = suc t.next_id })
  ]

  unfoldable pub perform : Operation → KeyTable → Answer × KeyTable
  perform (find key) t = (found (if_enabled (find_key key t.keys)), t)
  perform (create drawn name limit) t =
      let (info, t') = insert (generate_api_key drawn) name limit t in (made info, t')
  perform list t = (listed t.keys, t)
  perform (disable id) t =
      (disabled (ltb 0 (changed id t.keys)), record t { keys = disable_all id t.keys })

  unfoldable pub perform_all : List Operation → KeyTable → List Answer × KeyTable
  perform_all [] t = ([], t)
  perform_all (op ∷ ops) t =
      let (answer, t') = perform op t in
      let (answers, t'') = perform_all ops t' in (answer ∷ answers, t'')
