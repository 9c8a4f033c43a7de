-- ===== src/Provider/Models.antt =====
-- internal/provider/models.go: the makers of clients, and `NewProvider`.
use cortex_go.Errors.{unsupported_provider, Result, ok, err}
use cortex_go.Provider.Client.{OpenAiCompatible}
use cortex_go.Prelude.{◌||◌, [], if◌then◌else◌, ℤ, Str, bytes, str_eq, is_empty, pos}

pub record ModelConfig : Type 0 where
  pub base_url : Str
  pub api_key : Str
  pub model : Str
  pub embedding_model : Str
  pub max_retries : ℤ

-- NewOpenAICompatible
unfoldable pub new_open_ai_compatible : ModelConfig → OpenAiCompatible
new_open_ai_compatible config = record {
  base_url = config.base_url;
  api_key = config.api_key;
  model = config.model;
  embedding_model = config.embedding_model;
  max_retries = config.max_retries;
  retry_backoff = pos 0;
}

-- The body that NewGLM, NewDeepSeek, NewQwen and NewGroq have, with a vendor's URL and its model.
unfoldable pub new_vendor : Str → Str → Str → Str → OpenAiCompatible
new_vendor url default_model api_key model = record {
  base_url = url;
  api_key = api_key;
  model = if is_empty model then default_model else model;
  embedding_model = [];
  max_retries = pos 0;
  retry_backoff = pos 0;
}

-- NewGLM
unfoldable pub new_glm : Str → Str → OpenAiCompatible
new_glm = new_vendor (bytes "https://open.bigmodel.cn/api/paas") (bytes "glm-4-flash")

-- NewDeepSeek
unfoldable pub new_deep_seek : Str → Str → OpenAiCompatible
new_deep_seek = new_vendor (bytes "https://api.deepseek.com") (bytes "deepseek-chat")

-- NewQwen
unfoldable pub new_qwen : Str → Str → OpenAiCompatible
new_qwen = new_vendor (bytes "https://dashscope.aliyuncs.com/compatible-mode") (bytes "qwen-plus")

-- NewGroq
unfoldable pub new_groq : Str → Str → OpenAiCompatible
new_groq = new_vendor (bytes "https://api.groq.com/openai") (bytes "llama-3.1-8b-instant")

-- NewProvider
unfoldable pub new_provider : Str → ModelConfig → Result OpenAiCompatible
new_provider name config =
    if str_eq name (bytes "openai") || str_eq name (bytes "compatible")
    then ok (new_open_ai_compatible config)
    else if str_eq name (bytes "glm")
    then ok (new_glm config.api_key config.model)
    else if str_eq name (bytes "deepseek")
    then ok (new_deep_seek config.api_key config.model)
    else if str_eq name (bytes "qwen")
    then ok (new_qwen config.api_key config.model)
    else if str_eq name (bytes "groq")
    then ok (new_groq config.api_key config.model)
    else err (unsupported_provider name)
