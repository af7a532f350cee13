-- ===== src/Tests/Auth.antt =====
-- src/auth/middleware.rs on the sample configuration.
use rust_ai_router.Auth.{AuthContext, auth_middleware, is_public}
use rust_ai_router.Auth.Context.{auth_middleware_sound}
use rust_ai_router.Base.{
  ℕ, ◌≡◌, refl, false, Option, some, none, [], ◌∷◌, ◌++◌, bytes, same, find, get_or,
}
use rust_ai_router.Config.{TokenConfig, EffectiveLimits, resolve_token}
use rust_ai_router.Samples.{milli, config}

-- The context of the token `sk-a`, which has its team's limits.
abbrev team_context : AuthContext ℕ
team_context = record {
  token_key = bytes "sk-a";
  team = bytes "default";
  models = bytes "*" ∷ [];
  rpm = 50;
  tpm = 0;
  cost_multiplier = 1000;
}

authenticated :
    auth_middleware config (bytes "/v1/models") (some (bytes "Bearer sk-a")) ≡ some team_context
unfolding auth_middleware same rust_ai_router.Base.strip_prefix resolve_token
authenticated = refl

auth_middleware_sound_example :
    (token : TokenConfig) × (eff : EffectiveLimits ℕ) × (is_public (bytes "/v1/models") ≡ false)
    × (get_or (some (bytes "Bearer sk-a")) [] ≡ bytes "Bearer " ++ bytes "sk-a")
    × (find (λ t. same t.key (bytes "sk-a")) config.tokens ≡ some token)
    × (bytes "default" ≡ token.team)
    × (resolve_token config (bytes "sk-a") ≡ some eff)
    × (50 ≡ eff.rpm)
    × (0 ≡ eff.tpm)
auth_middleware_sound_example =
    auth_middleware_sound config (bytes "/v1/models") (some (bytes "Bearer sk-a")) team_context
      authenticated
