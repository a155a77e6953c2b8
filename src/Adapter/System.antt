-- ===== src/Adapter/System.antt =====
-- What `build_request_body` of src/adapter/anthropic_adapter.cpp makes of the messages of a request.
use ai_switch.Base.{
  ◌≡◌, Bool, false, List, [], ◌∷◌, ◌++◌, Bytes, bytes, str_eq, arith, append-nil, append_assoc,
  Bool-cases, inl, inr, is_empty, if◌then◌else◌,
}
use ai_switch.Base.Result.{ok, throw, fault, Result-cases}
use ai_switch.Json.{JsonLib}
use ai_switch.Adapter.Chat.{Sorted, add_system, sort_messages}

module _ (json : JsonLib) where
  open json use {Json, value_string}

  unfoldable pub is_system : Json → Bool
  is_system msg = elim (value_string msg (bytes "role") (bytes "user")) [
    | ok role ↦ str_eq role (bytes "system")
    | throw e ↦ false
    | fault ↦ false
  ]

  -- The messages that are no system messages.
  unfoldable pub others : List Json → List Json
  others [] = []
  others (msg ∷ msgs) = if is_system msg then others msgs else msg ∷ others msgs

  unfoldable pub system_contents : List Json → List Bytes
  system_contents [] = []
  system_contents (msg ∷ msgs) =
      if is_system msg
      then elim (value_string msg (bytes "content") []) [
        | ok content ↦ content ∷ system_contents msgs
        | throw e ↦ system_contents msgs
        | fault ↦ system_contents msgs
      ]
      else system_contents msgs

  -- Texts behind a first one, each on a new line unless nothing is before it.
  abbrev pub lines_after : Bytes → List Bytes → Bytes
  lines_after text [] = text
  lines_after text (t ∷ ts) =
      lines_after ((if is_empty text then [] else text ++ bytes "\n") ++ t) ts

  -- Where the messages can be read, those that are no system messages are kept as they are and in
  -- order, and the contents of the others, one to a line, are put behind the system prompt so far.
  pub sort_messages_lem :
      (msgs : List Json) (acc res : Sorted json)
      → sort_messages json msgs acc ≡ ok res
      → (res.messages ≡ acc.messages ++ others msgs)
        × (res.system_prompt ≡ lines_after acc.system_prompt (system_contents msgs))
  unfolding sort_messages others system_contents is_system
  sort_messages_lem [] acc res e = ground (arith, append-nil acc.messages)
  sort_messages_lem (msg ∷ msgs) acc res e =
      elim (Result-cases (value_string msg (bytes "role") (bytes "user"))) [
        | inl (role, reads) ↦ elim (Bool-cases (str_eq role (bytes "system"))) [
          | inl system ↦ elim (Result-cases (value_string msg (bytes "content") [])) [
            | inl (content, f) ↦
                ground (arith, sort_messages_lem msgs (add_system json content acc) res)
            | inr stopped ↦ absurd (ground arith)
          ]
          | inr other ↦ ground (
            arith,
            sort_messages_lem msgs (record acc { messages = acc.messages ++ msg ∷ [] }) res,
            append_assoc acc.messages (msg ∷ []) (others msgs),
          )
        ]
        | inr stopped ↦ absurd (ground arith)
      ]
