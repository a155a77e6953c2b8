-- ===== src/Database/Repository/Table/Revoked.antt =====
-- A key that has been disabled, in the table.
use ai_switch.Base.{
  ◌≡◌, refl, Bool, true, false, List, [], ◌∷◌, ◌++◌, some, Bytes, arith, Bool-cases, Option-cases,
  inl, inr,
}
use ai_switch.Base.Int.{ℤ, pos, negsuc}
use ai_switch.Database.Repository.{ApiKeyInfo, generate_api_key, not_found}
use ai_switch.Database.Repository.History.{Operation, find, create, list, disable}
use ai_switch.Database.Repository.Table.{
  KeyTable, find_key, if_enabled, disable_if, disable_all, same_id, perform, perform_all,
}

module _ (same : Bytes → Bytes → Bool) where
  -- The row of the key is there and is not enabled.
  pub IsRevoked : Bytes → KeyTable → Type 0
  IsRevoked key t =
      (info : ApiKeyInfo) × (find_key same key t.keys ≡ some info) × (info.enabled ≡ false)

  find_key-append :
      (key : Bytes) (keys more : List ApiKeyInfo) (info : ApiKeyInfo)
      → find_key same key keys ≡ some info
      → find_key same key (keys ++ more) ≡ some info
  find_key-append key [] more info e = cc
  find_key-append key (x ∷ rest) more info e = elim (Bool-cases (same x.api_key key)) [
    | inl this ↦ ground arith
    | inr other ↦ ground (arith, find_key-append key rest more info)
  ]

  find_key-disable_all :
      (key : Bytes) (id : ℤ) (keys : List ApiKeyInfo) (info : ApiKeyInfo)
      → find_key same key keys ≡ some info
      → find_key same key (disable_all id keys) ≡ some (disable_if id info)
  find_key-disable_all key id [] info e = cc
  find_key-disable_all key id (x ∷ rest) info e = elim (Bool-cases (same x.api_key key)) [
    | inl this ↦ ground arith
    | inr other ↦ ground (arith, find_key-disable_all key id rest info)
  ]

  same_id_refl : (id : ℤ) → same_id id id ≡ true
  same_id_refl (pos n) = ground arith
  same_id_refl (negsuc n) = ground arith

  disable-IsRevoked :
      (key : Bytes) (t : KeyTable) (info : ApiKeyInfo)
      → find_key same key t.keys ≡ some info
      → IsRevoked key (perform same (disable info.id) t).1
  unfolding IsRevoked perform
  disable-IsRevoked key t info e = (
    disable_if info.id info,
    find_key-disable_all key info.id t.keys info e,
    ground (arith, same_id_refl info.id),
  )

  -- No operation enables it again.
  perform-IsRevoked :
      (key : Bytes) (op : Operation) (t : KeyTable)
      → IsRevoked key t
      → IsRevoked key (perform same op t).1
  unfolding IsRevoked perform
  perform-IsRevoked key (find k) t v = v
  perform-IsRevoked key (create drawn name limit) t (info, e, off) =
      elim (Option-cases (find_key same (generate_api_key drawn) t.keys)) [
        | inl fresh ↦ (info, rw (fresh, find_key) (find_key-append key t.keys _ info e), off)
        | inr (known, there) ↦ (info, rw (there, find_key) e, off)
      ]
  perform-IsRevoked key list t v = v
  perform-IsRevoked key (disable id) t (info, e, off) =
      (disable_if id info, find_key-disable_all key id t.keys info e, ground arith)

  perform_all-IsRevoked :
      (key : Bytes) (ops : List Operation) (t : KeyTable)
      → IsRevoked key t
      → IsRevoked key (perform_all same ops t).1
  unfolding perform_all
  perform_all-IsRevoked key [] t v = v
  perform_all-IsRevoked key (op ∷ ops) t v =
      perform_all-IsRevoked key ops (perform same op t).1 (perform-IsRevoked key op t v)

  pub disabled-IsRevoked :
      (key : Bytes) (ops : List Operation) (t : KeyTable) (info : ApiKeyInfo)
      → find_key same key t.keys ≡ some info
      → IsRevoked key (perform_all same (disable info.id ∷ ops) t).1
  unfolding perform_all
  disabled-IsRevoked key ops t info e =
      perform_all-IsRevoked key ops (perform same (disable info.id) t).1
        (disable-IsRevoked key t info e)

  pub if_enabled-IsRevoked :
      (key : Bytes) (t : KeyTable)
      → IsRevoked key t
      → if_enabled (find_key same key t.keys) ≡ not_found
  unfolding IsRevoked
  if_enabled-IsRevoked key t (info, e, off) = rw (e, off) refl
