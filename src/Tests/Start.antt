-- ===== src/Tests/Start.antt =====
-- Runs of the start: a configuration, the messages of a request and the choice of a provider.
use ai_switch.Base.{
  ◌≡◌, refl, true, false, List, [], ◌∷◌, none, some, Bytes, bytes, is_empty, find, starts_with,
  str_eq,
}
use ai_switch.Base.Result.{ok}
use ai_switch.Json.{JsonLib}
use ai_switch.Config.{AppConfig, defaults, from_file}
use ai_switch.Config.Laws.{from_file_missing}
use ai_switch.Adapter.{Adapter, deepseek_adapter}
use ai_switch.Adapter.Factory.{register_adapter, create}
use ai_switch.Adapter.Chat.{Sorted, sort_messages}
use ai_switch.Gateway.Start.{
  Environment, apply_environment, adapters_of, register_keyed, key_for, url_for, create-adapters_of,
}
use ai_switch.Tests.Toy.{toy_json}

-- A library whose values have no keys.
abbrev bare_json : JsonLib
bare_json = record toy_json { contains = λ j k. false }

abbrev loaded_defaults : AppConfig
loaded_defaults = record defaults { loaded = true }

bare_run : from_file bare_json (some (bytes "{}")) ≡ ok loaded_defaults
bare_run = from_file_missing bare_json (bytes "{}") (bytes "{}") refl refl refl refl refl refl

abbrev messages : List Bytes
messages = bytes "roleuser" ∷ bytes "rolesystem" ∷ []

abbrev nothing_yet : Sorted toy_json
nothing_yet = record { messages = []; system_prompt = [] }

abbrev sorted : Sorted toy_json
sorted = record { messages = bytes "roleuser" ∷ []; system_prompt = bytes "system" }

sort_run : sort_messages toy_json messages nothing_yet ≡ ok sorted
unfolding sort_messages str_eq
sort_run = refl

abbrev environment : Environment
environment = record {
  db_password = none;
  deepseek_api_key = some (bytes "k");
  openai_api_key = none;
  anthropic_api_key = none;
}

choice :
    create (adapters_of (apply_environment environment defaults)) (bytes "deepseek-chat")
    ≡ some (deepseek_adapter (bytes "k") defaults.deepseek_base_url)
unfolding create adapters_of apply_environment register_keyed register_adapter deepseek_adapter find
    starts_with
choice = refl

abbrev chosen : Adapter
chosen = deepseek_adapter (bytes "k") defaults.deepseek_base_url

create-adapters_of_example :
    (is_empty chosen.api_key ≡ false)
    × (chosen.api_key ≡ key_for environment defaults chosen.provider)
    × (chosen.base_url ≡ url_for defaults chosen.provider)
create-adapters_of_example =
    create-adapters_of environment defaults (bytes "deepseek-chat") chosen choice
