-- ===== src/Adapter.antt =====
-- src/adapter: the adapters of the three providers and the factory that chooses one.
pub mod Factory
pub mod Anthropic
pub mod Curl
pub mod Chat
pub mod Streaming
pub mod System
use ai_switch.Base.{Bytes, bytes}

pub data Provider : Type 0 where
  deepseek openai anthropic : Provider

-- What the constructors of an adapter keep; `model_prefix` is the virtual function of that name.
pub record Adapter : Type 0 where
  pub provider : Provider
  pub api_key : Bytes
  pub base_url : Bytes
  pub default_model : Bytes
  pub model_prefix : Bytes

unfoldable pub deepseek_adapter : Bytes → Bytes → Adapter
deepseek_adapter api_key base_url = record {
  provider = deepseek;
  api_key = api_key;
  base_url = base_url;
  default_model = bytes "deepseek-v4-flash";
  model_prefix = bytes "deepseek";
}

unfoldable pub openai_adapter : Bytes → Bytes → Adapter
openai_adapter api_key base_url = record {
  provider = openai;
  api_key = api_key;
  base_url = base_url;
  default_model = bytes "gpt-3.5-turbo";
  model_prefix = bytes "gpt";
}

-- `default_model` has its default here, as main.cpp leaves it; the prefix is in the header.
unfoldable pub anthropic_adapter : Bytes → Bytes → Adapter
anthropic_adapter api_key base_url = record {
  provider = anthropic;
  api_key = api_key;
  base_url = base_url;
  default_model = bytes "claude-3-5-sonnet-20241022";
  model_prefix = bytes "claude";
}
