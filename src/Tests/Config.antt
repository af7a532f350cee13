-- ===== src/Tests/Config.antt =====
-- src/config on the sample configuration.
use rust_ai_router.Base.{
  Str, Option, List, ◌∷◌, if◌then◌else◌, ℕ, ◌≡◌, refl, ◌↔◌, true, none, some, [], map, bytes, same,
  find, trim,
}
use rust_ai_router.Config.{AppConfig, TokenConfig, find_model, token_has_model_access}
use rust_ai_router.Config.Access.{Grants, token_has_model_access_iff}
use rust_ai_router.Config.Loader.{ok, bail, unset_variable, validate_config, expand_env_vars}
use rust_ai_router.Config.Loader.Expand.{}
use rust_ai_router.Config.Loader.Valid.{TeamsKnown, Served, validate_config_iff}
use rust_ai_router.Config.Watcher.{Watched, Change, data_modified, created, watch_config}
use rust_ai_router.Config.Watcher.Served.{watch_config-serves}
use rust_ai_router.Router.Balancer.{SelectedEndpoint, select_endpoint}
use rust_ai_router.Samples.{milli, config, chat_model}

token_has_model_access_iff_example :
    (token_has_model_access config (bytes "sk-b") (bytes "gpt-4") ≡ true) ↔ (
      (token : TokenConfig) × (find (λ t. same t.key (bytes "sk-b")) config.tokens ≡ some token)
      × Grants config token (bytes "gpt-4"))
token_has_model_access_iff_example =
    token_has_model_access_iff config (bytes "sk-b") (bytes "gpt-4")

validate_config_iff_example :
    (validate_config config ≡ ok tt)
    ↔ (TeamsKnown (map (λ t. t.name) config.teams) config.tokens × Served config.models)
validate_config_iff_example = validate_config_iff config

valid : validate_config config ≡ ok tt
unfolding validate_config same
valid = refl

known : find_model config (bytes "gpt") ≡ some chat_model
unfolding find_model same
known = refl

abbrev reads_sample : Str → Option (AppConfig ℕ)
reads_sample text = if same text (bytes "yaml") then some config else none

-- The file is written, with a mistake the second time.
abbrev changes : List Change
changes =
    record {
      kind = data_modified;
      paths = bytes "/etc/config.yaml" ∷ [];
      env = λ name. none;
      file = some (bytes "yaml");
    }
    ∷ record {
      kind = created;
      paths = bytes "/etc/config.yaml" ∷ [];
      env = λ name. none;
      file = some (bytes "${X}");
    }
    ∷ []

abbrev watched : Watched
watched = record {
  path = bytes "/etc/config.yaml";
  file_name = bytes "config.yaml";
  ends_with = same;
  starts = true;
}

started : watch_config watched reads_sample (λ name. none) (some (bytes "yaml")) changes ≡ ok config
unfolding watch_config same trim
started = refl

watch_config-serves_example :
    (s : SelectedEndpoint ℕ) × ((select_endpoint config [] (bytes "gpt")).0 ≡ some s)
watch_config-serves_example =
    watch_config-serves watched reads_sample (λ name. none) (some (bytes "yaml")) changes config []
      (bytes "gpt") chat_model started known

-- A variable, a default, and the empty default, which is refused.
takes_value : expand_env_vars (λ name. some (bytes "v")) (bytes "a${X}b") ≡ ok (bytes "avb")
unfolding expand_env_vars trim
takes_value = refl

takes_default : expand_env_vars (λ name. none) (bytes "${X:-d}") ≡ ok (bytes "d")
unfolding expand_env_vars trim
takes_default = refl

refuses_empty_default :
    expand_env_vars (λ name. none) (bytes "${X:-}") ≡ bail (unset_variable (bytes "X"))
unfolding expand_env_vars trim
refuses_empty_default = refl
