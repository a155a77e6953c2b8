-- ===== src/Gateway/Start.antt =====
-- The start of src/main.cpp: the environment, and the adapters that the configuration asks for.
use ai_switch.Base.{
  ◌≡◌, refl, ap, subst, ◌∙◌, false, List, [], ◌∷◌, Option, none, some, Bytes, arith, is_empty,
  at_front, find, if◌then◌else◌, Bool-cases, inl, inr, All,
}
use ai_switch.Config.{AppConfig}
use ai_switch.Adapter.{
  Provider, deepseek, openai, anthropic, Adapter, deepseek_adapter, openai_adapter,
  anthropic_adapter,
}
use ai_switch.Adapter.Factory.{register_adapter, create}

-- What `getenv` gives, `none` for a null pointer.
pub record Environment : Type 0 where
  pub db_password : Option Bytes
  pub deepseek_api_key : Option Bytes
  pub openai_api_key : Option Bytes
  pub anthropic_api_key : Option Bytes

abbrev pub or_kept : Option Bytes → Bytes → Bytes
or_kept none kept = kept
or_kept (some value) kept = value

unfoldable pub apply_environment : Environment → AppConfig → AppConfig
apply_environment env cfg = record cfg {
  db_password = or_kept env.db_password cfg.db_password;
  deepseek_api_key = or_kept env.deepseek_api_key cfg.deepseek_api_key;
  openai_api_key = or_kept env.openai_api_key cfg.openai_api_key;
  anthropic_api_key = or_kept env.anthropic_api_key cfg.anthropic_api_key;
}

-- `if (!key.empty()) ai_factory->register_adapter(…)`
unfoldable pub register_keyed : Bytes → Adapter → List Adapter → List Adapter
register_keyed key ai adapters = if is_empty key then adapters else register_adapter ai adapters

unfoldable pub adapters_of : AppConfig → List Adapter
adapters_of cfg =
    register_keyed cfg.anthropic_api_key
      (anthropic_adapter cfg.anthropic_api_key cfg.anthropic_base_url)
      (register_keyed cfg.openai_api_key (openai_adapter cfg.openai_api_key cfg.openai_base_url) (
        register_keyed cfg.deepseek_api_key
          (deepseek_adapter cfg.deepseek_api_key cfg.deepseek_base_url) []))

-- The key of a provider: what the environment has, or else what the file has. And its address.
abbrev pub key_for : Environment → AppConfig → Provider → Bytes
key_for env cfg deepseek = elim env.deepseek_api_key [
  | none ↦ cfg.deepseek_api_key
  | some value ↦ value
]
key_for env cfg openai = elim env.openai_api_key [ none ↦ cfg.openai_api_key | some value ↦ value ]
key_for env cfg anthropic = elim env.anthropic_api_key [
  | none ↦ cfg.anthropic_api_key
  | some value ↦ value
]

abbrev pub url_for : AppConfig → Provider → Bytes
url_for cfg deepseek = cfg.deepseek_base_url
url_for cfg openai = cfg.openai_base_url
url_for cfg anthropic = cfg.anthropic_base_url

abbrev IsConfigured : Environment → AppConfig → Adapter → Type 0
IsConfigured env cfg ai =
    (is_empty ai.api_key ≡ false)
    × (ai.api_key ≡ key_for env cfg ai.provider)
    × (ai.base_url ≡ url_for cfg ai.provider)

or_kept_lem :
    (o : Option Bytes) (kept : Bytes) → or_kept o kept ≡ elim o [ none ↦ kept | some value ↦ value ]
or_kept_lem none kept = refl
or_kept_lem (some value) kept = refl

module _ (env : Environment) (cfg : AppConfig) where
  create-IsConfigured :
      (adapters : List Adapter) (model : Bytes) (ai : Adapter)
      → All (IsConfigured env cfg) adapters
      → create adapters model ≡ some ai
      → IsConfigured env cfg ai
  unfolding create
  create-IsConfigured [] model ai h e = cc
  create-IsConfigured (a ∷ adapters) model ai (h, hs) e =
      elim (Bool-cases (at_front (find a.model_prefix model))) [
        | inl fits ↦ (let same : a ≡ ai = ground arith in subst (IsConfigured env cfg) same h)
        | inr other ↦ create-IsConfigured adapters model ai hs (ground arith)
      ]

  All-register :
      (adapters : List Adapter) (ai : Adapter)
      → All (IsConfigured env cfg) adapters
      → IsConfigured env cfg ai
      → All (IsConfigured env cfg) (register_adapter ai adapters)
  unfolding register_adapter
  All-register [] ai h k = (k, tt)
  All-register (a ∷ adapters) ai (h, hs) k = (h, All-register adapters ai hs k)

  All-register_keyed :
      (key : Bytes) (ai : Adapter) (adapters : List Adapter)
      → ai.api_key ≡ key
      → key ≡ key_for env cfg ai.provider
      → ai.base_url ≡ url_for cfg ai.provider
      → All (IsConfigured env cfg) adapters
      → All (IsConfigured env cfg) (register_keyed key ai adapters)
  unfolding register_keyed
  All-register_keyed key ai adapters e f g h = elim (Bool-cases (is_empty key)) [
    | inl empty ↦ rw empty h
    | inr full ↦ rw full (All-register adapters ai h (ap is_empty e ∙ full, e ∙ f, g))
  ]

  -- An adapter that the factory gives has a key that is not empty: the one that the environment has for
  -- its provider or, where it has none, the one of the file; and the address that the file has for the
  -- provider.
  pub create-adapters_of :
      (model : Bytes) (ai : Adapter)
      → create (adapters_of (apply_environment env cfg)) model ≡ some ai
      → (is_empty ai.api_key ≡ false)
        × (ai.api_key ≡ key_for env cfg ai.provider)
        × (ai.base_url ≡ url_for cfg ai.provider)
  unfolding adapters_of apply_environment deepseek_adapter openai_adapter anthropic_adapter
  create-adapters_of model ai e =
      let c = apply_environment env cfg in
      create-IsConfigured (adapters_of c) model ai
        (All-register_keyed c.anthropic_api_key
          (anthropic_adapter c.anthropic_api_key c.anthropic_base_url) _ refl
          (or_kept_lem env.anthropic_api_key cfg.anthropic_api_key) refl
          (All-register_keyed c.openai_api_key (openai_adapter c.openai_api_key c.openai_base_url) _
            refl (or_kept_lem env.openai_api_key cfg.openai_api_key) refl
            (All-register_keyed c.deepseek_api_key
              (deepseek_adapter c.deepseek_api_key c.deepseek_base_url) [] refl
              (or_kept_lem env.deepseek_api_key cfg.deepseek_api_key) refl tt)))
        e
