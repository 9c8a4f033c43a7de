-- ===== src/Command.antt =====
-- cmd/cortexgo/main.go: the settings from the environment, the choice of the model, and the loop that
-- reads the terminal. What is printed for the user's eyes only, and package flag, are left out.
pub mod Loop
use cortex_go.Errors.{unsupported_provider, settings_required, Result, ok, err}
use cortex_go.Provider.Client.{OpenAiCompatible}
use cortex_go.Prelude.{
  Bool, true, false, ◌||◌, Option, none, some, List, [], ◌∷◌, if◌then◌else◌, ℤ, is_pos, is_nonneg,
  Str, bytes, str_eq, trim_space, is_empty,
}

-- os.Getenv, strings.ToLower, strconv.Atoi and time.ParseDuration
pub record Settings : Type 0 where
  pub getenv : Str → Str
  pub lower : Str → Str
  pub atoi : Str → Option ℤ
  pub parse_duration : Str → Option ℤ

module _ (x : Settings) where
  -- strings.TrimSpace(os.Getenv(key))
  abbrev pub setting : Str → Str
  setting key = trim_space (x.getenv key)

  unfoldable pub env_default : Str → Str → Str
  env_default key fallback = if is_empty (setting key) then fallback else setting key

  unfoldable pub env_int : Str → ℤ → ℤ
  env_int key fallback = if is_empty (setting key) then fallback else elim (x.atoi (setting key)) [
    | none ↦ fallback
    | some n ↦ if is_nonneg n then n else fallback
  ]

  unfoldable pub env_duration : Str → ℤ → ℤ
  env_duration key fallback =
      if is_empty (setting key) then fallback else elim (x.parse_duration (setting key)) [
        | none ↦ fallback
        | some d ↦ if is_pos d then d else fallback
      ]

  abbrev is_one_of : Str → List Str → Bool
  is_one_of s [] = false
  is_one_of s (t ∷ ts) = str_eq s t || is_one_of s ts

  unfoldable pub env_bool : Str → Bool → Bool
  env_bool key fallback =
      let value = x.lower (setting key) in
      if is_one_of value (bytes "1" ∷ bytes "true" ∷ bytes "yes" ∷ bytes "on" ∷ [])
      then true
      else if is_one_of value (bytes "0" ∷ bytes "false" ∷ bytes "no" ∷ bytes "off" ∷ [])
      then false
      else fallback

  -- The model that newModel returns: Echo, or the client.
  pub data ChosenModel : Type 0 where
    echo : ChosenModel
    client : OpenAiCompatible → ChosenModel

  unfoldable pub new_model : Str → OpenAiCompatible → Result ChosenModel
  new_model name p =
      let kind = x.lower (trim_space name) in
      if str_eq kind (bytes "echo")
      then ok echo
      else if str_eq kind (bytes "openai")
      then if is_empty p.base_url || is_empty p.model then err settings_required else ok (client p)
      else err (unsupported_provider name)

  -- The client that main makes of the flags; an API key is read from the environment only.
  unfoldable pub client_of : Str → Str → Str → ℤ → ℤ → OpenAiCompatible
  client_of base_url model embedding_model max_retries retry_backoff = record {
    base_url = base_url;
    api_key = x.getenv (bytes "CORTEXGO_API_KEY");
    model = model;
    embedding_model = embedding_model;
    max_retries = max_retries;
    retry_backoff = retry_backoff;
  }
