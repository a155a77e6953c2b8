-- ===== src/Config/Laws.antt =====
-- When a configuration counts as loaded, and what it holds then.
use ai_switch.Base.{◌≡◌, refl, true, false, Option, none, some, Bytes, bytes, arith, inl, inr}
use ai_switch.Base.Result.{ok, parse_error, Result-cases}
use ai_switch.Json.{JsonLib}
use ai_switch.Config.{
  AppConfig, Reader, defaults, in_section, read_server, read_database, read_rate_limiter,
  read_models, read_admin, read_root, read_text, from_file,
}

module _ (json : JsonLib) where
  open json use {Json, parse, contains}

  -- A configuration that counts as loaded comes from a file that opened and whose text is JSON.
  pub from_file_loaded :
      (file : Option Bytes) (cfg : AppConfig)
      → from_file json file ≡ ok cfg
      → cfg.loaded ≡ true
      → (text : Bytes) × (root : Json) × (file ≡ some text) × (parse text ≡ ok root)
  unfolding from_file read_text
  from_file_loaded none cfg e l = absurd (ground arith)
  from_file_loaded (some text) cfg e l = elim (Result-cases (parse text)) [
    | inl (root, f) ↦ (text, root, refl, f)
    | inr (inl (parse_error m, f)) ↦ absurd (ground arith)
    | inr stopped ↦ absurd (ground arith)
  ]

  in_section_missing :
      (j : Json) (key : Bytes) (read : Json → Reader json) (cfg : AppConfig)
      → contains j key ≡ false
      → in_section json j key read cfg ≡ (ok tt, cfg)
  unfolding in_section
  in_section_missing j key read cfg e = rw (e, in_section) refl

  read_root_missing :
      (root : Json)
      → contains root (bytes "server") ≡ false
      → contains root (bytes "database") ≡ false
      → contains root (bytes "rate_limiter") ≡ false
      → contains root (bytes "ai_models") ≡ false
      → contains root (bytes "admin") ≡ false
      → read_root json root defaults ≡ (ok tt, defaults)
  unfolding read_root
  read_root_missing root a b c d e = rw (
    in_section_missing root (bytes "server") (read_server json) defaults a,
    in_section_missing root (bytes "database") (read_database json) defaults b,
    in_section_missing root (bytes "rate_limiter") (read_rate_limiter json) defaults c,
    in_section_missing root (bytes "ai_models") (read_models json) defaults d,
    in_section_missing root (bytes "admin") (read_admin json) defaults e,
  )

  -- Where a file has none of the five sections, all fields have their defaults, and the configuration
  -- counts as loaded.
  pub from_file_missing :
      (text : Bytes) (root : Json)
      → parse text ≡ ok root
      → contains root (bytes "server") ≡ false
      → contains root (bytes "database") ≡ false
      → contains root (bytes "rate_limiter") ≡ false
      → contains root (bytes "ai_models") ≡ false
      → contains root (bytes "admin") ≡ false
      → from_file json (some text) ≡ ok (record defaults { loaded = true })
  unfolding from_file read_text
  from_file_missing text root parsed a b c d e = ground (arith, read_root_missing root a b c d e)
