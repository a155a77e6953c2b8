-- ===== src/Database/Repository/Table/Rows.antt =====
-- The rows of stored keys, read back.
use ai_switch.Base.{
  ◌≡◌, refl, Bool, List, [], ◌∷◌, ◌++◌, Option, none, some, Bytes, bytes, str_eq, All, arith,
  if◌then◌else◌, Bool-cases, inl, inr,
}
use ai_switch.Base.Int.{ℤ}
use ai_switch.Base.Numbers.{to_string}
use ai_switch.Base.Numbers.RoundTrip.{stoll-to_string, stoi-to_string}
use ai_switch.Base.Result.{ok}
use ai_switch.Database.Mysql.{Row}
use ai_switch.Database.Repository.{ApiKeyInfo, read_row, read_rows, first_row}
use ai_switch.Database.Repository.Created.{IsInRange, nonneg_lem}
use ai_switch.Database.Repository.Table.{find_key, if_enabled, disable_all}

-- The columns as the server writes them.
abbrev pub stored_row : ApiKeyInfo → Row
stored_row info = record {
  id = some (to_string info.id);
  api_key = some info.api_key;
  name = some info.name;
  rate_limit = some (to_string info.rate_limit);
  enabled = some (if info.enabled then bytes "1" else bytes "0");
}

abbrev pub stored_rows : List ApiKeyInfo → List Row
stored_rows [] = []
stored_rows (info ∷ rest) = stored_row info ∷ stored_rows rest

abbrev pub at_most_one : Option ApiKeyInfo → List Row
at_most_one none = []
at_most_one (some info) = stored_row info ∷ []

pub read_row-stored_row :
    (info : ApiKeyInfo) → IsInRange info → read_row (stored_row info) ≡ ok info
unfolding read_row str_eq
read_row-stored_row info range =
    rw
      (
        stoll-to_string info.id (nonneg_lem info.id range.id_least) range.id_most,
        stoi-to_string info.rate_limit range.limit_least range.limit_most,
      )
      (elim (Bool-cases info.enabled) [ inl on ↦ ground arith | inr off ↦ ground arith ])

pub read_rows-stored_rows :
    (keys : List ApiKeyInfo) → All IsInRange keys → read_rows (stored_rows keys) ≡ ok keys
unfolding read_rows
read_rows-stored_rows [] range = refl
read_rows-stored_rows (info ∷ rest) range =
    rw (read_row-stored_row info range.0, read_rows-stored_rows rest range.1) refl

module _ (same : Bytes → Bytes → Bool) where
  pub first_row-find_key :
      (key : Bytes) (keys : List ApiKeyInfo)
      → All IsInRange keys
      → first_row (at_most_one (find_key same key keys)) ≡ ok (if_enabled (find_key same key keys))
  unfolding first_row
  first_row-find_key key [] range = refl
  first_row-find_key key (info ∷ rest) range = elim (Bool-cases (same info.api_key key)) [
    | inl this ↦ rw (this, read_row-stored_row info range.0) refl
    | inr other ↦ rw other (first_row-find_key key rest range.1)
  ]

pub All-disable_all :
    (id : ℤ) (keys : List ApiKeyInfo) → All IsInRange keys → All IsInRange (disable_all id keys)
All-disable_all id [] range = tt
All-disable_all id (info ∷ rest) range =
    let r = range.0 in
    (
      record {
        id_least = r.id_least;
        id_most = r.id_most;
        limit_least = r.limit_least;
        limit_most = r.limit_most;
      },
      All-disable_all id rest range.1,
    )

pub All-append :
    (keys : List ApiKeyInfo) (info : ApiKeyInfo)
    → All IsInRange keys
    → IsInRange info
    → All IsInRange (keys ++ info ∷ [])
All-append [] info range h = (h, tt)
All-append (x ∷ rest) info range h = (range.0, All-append rest info range.1 h)
