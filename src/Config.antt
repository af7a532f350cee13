-- ===== src/Config.antt =====
-- src/config/types.rs: what the rest of the program asks of the configuration.
mod Types
pub mod Access
pub mod Loader
pub mod Watcher
pub use Types.*
use rust_ai_router.Base.{
  ℕ, Bool, true, false, ◌||◌, Option, none, some, List, [], ◌∷◌, Str, bytes, same, any, find,
  contains, map_opt, and_then, ◌>>=◌, or_else, get_or, Float, if◌then◌else◌,
}

module _ {F : Type 0} ⦃fl : Float F⦄ where
  -- `AppConfig::resolve_token`
  unfoldable pub resolve_token : AppConfig F → Str → Option (EffectiveLimits F)
  resolve_token cfg token_key = do
    token ← find (λ t. same t.key token_key) cfg.tokens
    let team = find (λ t. same t.name token.team) cfg.teams
    let team_limits = and_then team (λ t. t.limits)
    some (record {
      rpm =
          get_or (or_else (map_opt (λ l. l.rpm) token.limits) (map_opt (λ l. l.rpm) team_limits)) 0;
      tpm =
          get_or (or_else (map_opt (λ l. l.tpm) token.limits) (map_opt (λ l. l.tpm) team_limits)) 0;
      models = get_or (or_else token.models (map_opt (λ t. t.models) team)) (bytes "*" ∷ []);
      cost_multiplier = get_or (and_then team (λ t. t.cost_multiplier)) (fl.of_u64 1);
    })

  -- `AppConfig::token_has_model_access`
  unfoldable pub token_has_model_access : AppConfig F → Str → Str → Bool
  token_has_model_access cfg token_key model = elim (resolve_token cfg token_key) [
    | none ↦ false
    | some eff ↦
        if any (λ m. same m (bytes "*")) eff.models
        then true
        else any (λ m. same m model) eff.models
  ]

module _ {F : Type 0} where
  -- The test of `AppConfig::find_model`: the name, or one of the aliases.
  abbrev pub answers_to : Str → ModelConfig F → Bool
  answers_to model_name m = same m.name model_name || any (λ a. same a model_name) m.aliases

  -- `AppConfig::find_model`
  unfoldable pub find_model : AppConfig F → Str → Option (ModelConfig F)
  find_model cfg model_name = find (answers_to model_name) cfg.models

  -- `AppConfig::canonical_model_name`
  unfoldable pub canonical_model_name : AppConfig F → Str → Str
  unfolding find_model
  canonical_model_name cfg model_name =
      get_or (map_opt (λ m. m.name) (find_model cfg model_name)) model_name
