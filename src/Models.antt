-- ===== src/Models.antt =====
-- src/main.rs: the lists of models, `list_models` (GET /v1/models) and `ollama_tags` (GET
-- /api/tags). The text of the present time is an argument.
pub mod Listed
use rust_ai_router.Auth.{AuthContext}
use rust_ai_router.Base.{ℕ, Option, none, some, List, [], ◌∷◌, Str, bytes, map, keep, Float}
use rust_ai_router.Config.{AppConfig, ModelConfig, token_has_model_access}
use rust_ai_router.Json.{Json}
use rust_ai_router.Proxy.Limits.{Limited, check_all_rate_limits}
use rust_ai_router.Proxy.State.{AppState, count_error}
use rust_ai_router.RateLimit.Store.{Governor, RateLimitResult}
use rust_ai_router.Sync.{Redis}

pub data ListReply (F V : Type 0) : Type 0 where
  unauthorized : ListReply F V
  limited : Limited → RateLimitResult F → ListReply F V
  listed : V → ListReply F V

module _ {F : Type 0} ⦃fl : Float F⦄ where
  -- The names of the models that a token has access to, in the order of the configuration.
  unfoldable pub listed_names : AppConfig F → Str → List Str
  unfolding token_has_model_access
  listed_names cfg token_key =
      map (λ m. m.name) (keep (λ m. token_has_model_access cfg token_key m.name) cfg.models)

module _ {V : Type 0} ⦃json : Json V⦄ where
  unfoldable pub model_entry : Str → V
  model_entry name = json.object (
      (bytes "id", json.string name)
      ∷ (bytes "object", json.string (bytes "model"))
      ∷ (bytes "owned_by", json.string (bytes "openai-router"))
      ∷ [])

  unfoldable pub tag_entry : Str → Str → V
  tag_entry modified_at name = json.object (
      (bytes "name", json.string name)
      ∷ (bytes "model", json.string name)
      ∷ (bytes "modified_at", json.string modified_at)
      ∷ (bytes "size", json.number 0)
      ∷ (bytes "digest", json.string (bytes "openai-router"))
      ∷ (
        bytes "details",
        json.object (
            (bytes "parent_model", json.string [])
            ∷ (bytes "format", json.string (bytes "gguf"))
            ∷ (bytes "family", json.string (bytes "openai"))
            ∷ (bytes "families", json.array [])
            ∷ (bytes "parameter_size", json.string [])
            ∷ (bytes "quantization_level", json.string [])
            ∷ []),
      )
      ∷ [])

  unfoldable pub models_body : List Str → V
  unfolding model_entry
  models_body names = json.object (
      (bytes "object", json.string (bytes "list"))
      ∷ (bytes "data", json.array (map model_entry names))
      ∷ [])

  unfoldable pub tags_body : Str → List Str → V
  unfolding tag_entry
  tags_body modified_at names =
      json.object ((bytes "models", json.array (map (tag_entry modified_at) names)) ∷ [])

module _ {V F G R : Type 0} ⦃json : Json V⦄ ⦃fl : Float F⦄ ⦃gov : Governor G⦄
    ⦃redis : Redis R⦄ where
  -- What both handlers do before they make their list.
  unfoldable pub within_limits :
      AppConfig F
      → Option (AuthContext F)
      → (AuthContext F → V)
      → ℕ
      → ℕ
      → AppState F G R
      → ListReply F V × AppState F G R
  within_limits cfg auth list now unix app = elim auth [
    | none ↦ (unauthorized, app)
    | some ctx ↦
        (let (over, app') =
            check_all_rate_limits cfg app ctx.team ctx.token_key ctx.rpm ctx.tpm now unix in
          elim over [
            | some rl ↦ (
              limited rl.0 rl.1,
              record app' {
                live_stats =
                    count_error app'.live_stats ctx.token_key ctx.team (bytes "rate_limited");
              },
            )
            | none ↦ (listed (list ctx), app')
          ])
  ]

  -- `list_models`
  unfoldable pub list_models :
      AppConfig F → Option (AuthContext F) → ℕ → ℕ → AppState F G R → ListReply F V × AppState F G R
  unfolding within_limits listed_names models_body
  list_models cfg auth now unix app =
      within_limits cfg auth (λ ctx. models_body (listed_names cfg ctx.token_key)) now unix app

  -- `ollama_tags`
  unfoldable pub ollama_tags :
      AppConfig F
      → Option (AuthContext F)
      → Str
      → ℕ
      → ℕ
      → AppState F G R
      → ListReply F V × AppState F G R
  unfolding within_limits listed_names tags_body
  ollama_tags cfg auth modified_at now unix app =
      within_limits cfg auth (λ ctx. tags_body modified_at (listed_names cfg ctx.token_key)) now
        unix app
