-- ===== src/Tests/Reports.antt =====
-- src/main.rs and src/health/dashboard.rs on the sample configuration.
use rust_ai_router.Base.{
  ◌≡◌, refl, true, false, not, ◌&&◌, none, some, List, Str, bytes, same, contains, any, map,
  from_secs,
}
use rust_ai_router.Base.Dict.{get, put}
use rust_ai_router.Base.Int.{wrap_i64}
use rust_ai_router.Config.{token_has_model_access}
use rust_ai_router.Dashboard.{stats_json}
use rust_ai_router.Dashboard.Visible.{stats_json-visible}
use rust_ai_router.Json.{member}
use rust_ai_router.Keys.{team_limit_key}
use rust_ai_router.Keys.Urls.{mask_redis_url, mask_endpoint_url, mask_host}
use rust_ai_router.Models.{listed, model_entry, tag_entry, list_models, ollama_tags}
use rust_ai_router.Models.Listed.{list_models-ollama_tags}
use rust_ai_router.Proxy.Limits.{check_all_rate_limits}
use rust_ai_router.RateLimit.Store.{check_rpm, check_tpm, get_or_create, new_pair}
use rust_ai_router.RateLimit.Tpm.{new, refill, earned, check_n}
use rust_ai_router.Samples.{milli, counting, memory, config, app, context}
use rust_ai_router.Samples.Encoded.{encoded, encoded_laws}
use rust_ai_router.Sync.{check_rate_limit}

calm :
    (check_all_rate_limits config app context.team context.token_key context.rpm context.tpm
      (from_secs 5)
      1005).0
    ≡ none
unfolding check_all_rate_limits check_rate_limit same get put wrap_i64 team_limit_key
    rust_ai_router.RateLimit.Store.check check_rpm get_or_create new_pair check_tpm check_n refill
    earned new
calm = refl

list_models-ollama_tags_example :
    (names : List Str) × (v : Str) × (w : Str) × ((list_models config
        (some context)
        (from_secs 5)
        1005
        app).0
      ≡ listed v)
    × (member v (bytes "data") ≡ some (encoded.array (map model_entry names)))
    × ((ollama_tags config (some context) (bytes "t") (from_secs 5) 1005 app).0 ≡ listed w)
    × (member w (bytes "models") ≡ some (encoded.array (map (tag_entry (bytes "t")) names)))
    × (contains names (bytes "solo") ≡ (
        token_has_model_access config context.token_key (bytes "solo")
        && any (λ m. same m.name (bytes "solo")) config.models))
list_models-ollama_tags_example =
    list_models-ollama_tags encoded_laws config context (bytes "t") (from_secs 5) 1005 app
      (bytes "solo") calm

stats_json-visible_example :
    (any
        (λ e. not (token_has_model_access config context.token_key e.model))
        (stats_json (λ u. u) config context (from_secs 5) 1005 app).0.endpoints
      ≡ false)
    × ((stats_json (λ u. u) config context (from_secs 5) 1005 app).0.all_tokens ≡ none)
    × ((stats_json (λ u. u) config context (from_secs 5) 1005 app).0.all_teams ≡ none)
unfolding same
stats_json-visible_example = stats_json-visible (λ u. u) config context (from_secs 5) 1005 app refl

-- The addresses of the source's tests.
shown_ip : mask_host (bytes "10.0.0.1") true ≡ bytes "10.***"
unfolding mask_host
shown_ip = refl

shown_address :
    mask_endpoint_url
      (λ url. some (record {
        scheme = bytes "https";
        host = bytes "api.openai.com";
        is_ip = false;
        port = none;
        path = bytes "/v1/completions";
      }))
      (bytes "https://api.openai.com/v1/completions")
    ≡ bytes "https://api***.openai.com/v1/comp...ions"
unfolding mask_endpoint_url
shown_address = refl

shown_redis : mask_redis_url (bytes "redis://:pw@host") ≡ bytes "redis://***@host"
unfolding mask_redis_url
shown_redis = refl
