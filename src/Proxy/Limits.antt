-- ===== src/Proxy/Limits.antt =====
-- src/proxy/handler.rs: `check_all_rate_limits`.
pub mod Order
use rust_ai_router.Base.{
  ℕ, ◌≤◌, Bool, true, false, ◌||◌, Option, none, some, Str, bytes, find, same, and_then, map_or,
  ltb, if◌then◌else◌, Float,
}
use rust_ai_router.Config.{AppConfig, TeamConfig, LimitsConfig}
use rust_ai_router.Keys.{team_limit_key}
use rust_ai_router.Proxy.State.{AppState, RateLimitState, with_limiters, with_sync}
use rust_ai_router.RateLimit.Store.{Governor, RateLimitResult, RateLimitScope, token, check}
use rust_ai_router.Sync.{Redis, check_rate_limit}

-- For whom a request is refused.
pub data Limited : Type 0 where
  team_shared team_local token_shared token_local endpoint_shared endpoint_local : Limited

module _ {F : Type 0} where
  -- `cfg.teams.iter().find(|t| t.name == team).and_then(|t| t.limits.as_ref())`
  abbrev pub team_limits_of : AppConfig F → Str → Option LimitsConfig
  team_limits_of cfg team = and_then (find (λ t. same t.name team) cfg.teams) (λ t. t.limits)

module _ {F G R : Type 0} ⦃fl : Float F⦄ ⦃gov : Governor G⦄ ⦃redis : Redis R⦄ where
  -- One call of the shared limiter: `some` when it refuses.
  unfoldable pub shared_limit :
      AppState F G R → Str → Str → ℕ → Option (RateLimitResult F) × AppState F G R
  shared_limit app scope key limit =
      let (rl, sync) = check_rate_limit app.limits.sync scope key limit in
      (if rl.allowed then none else some rl, with_sync app sync)

  -- One call of the local limiters, for one token of a model.
  unfoldable pub local_limit :
      AppState F G R
      → Str
      → ℕ
      → ℕ
      → RateLimitScope
      → ℕ
      → ℕ
      → Option (RateLimitResult F) × AppState F G R
  local_limit app key rpm tpm scope now unix =
      let (rl, limiters) = check app.limits.limiters key rpm tpm 1 scope now unix in
      (if rl.allowed then none else some rl, with_limiters app limiters)

  -- The first part: the budget that a team shares.
  unfoldable pub check_team_limits :
      AppConfig F
      → AppState F G R
      → Str
      → ℕ
      → ℕ
      → Option (Limited × RateLimitResult F) × AppState F G R
  unfolding shared_limit local_limit
  check_team_limits cfg app team now unix =
      let limits = team_limits_of cfg team in
      let team_rpm = map_or 0 (λ l. l.rpm) limits in
      let team_tpm = map_or 0 (λ l. l.tpm) limits in
      let (shared, app') =
        if ltb 0 team_rpm
        then shared_limit app (bytes "team") (team_limit_key team) team_rpm
        else (none, app) in
      elim shared [
        | some rl ↦ (some (team_shared, rl), app')
        | none ↦
            (let (own, app'') =
                if ltb 0 team_rpm || ltb 0 team_tpm
                then local_limit app' (team_limit_key team) team_rpm team_tpm token now unix
                else (none, app') in
              elim own [ some rl ↦ (some (team_local, rl), app'') | none ↦ (none, app'') ])
      ]

  -- The second part: the budget of the token.
  unfoldable pub check_token_limits :
      AppState F G R → Str → ℕ → ℕ → ℕ → ℕ → Option (Limited × RateLimitResult F) × AppState F G R
  unfolding shared_limit local_limit
  check_token_limits app token_key token_rpm token_tpm now unix =
      let (shared, app') =
        if ltb 0 token_rpm
        then shared_limit app (bytes "token") token_key token_rpm
        else (none, app) in
      elim shared [
        | some rl ↦ (some (token_shared, rl), app')
        | none ↦
            (let (own, app'') = local_limit app' token_key token_rpm token_tpm token now unix in
              elim own [ some rl ↦ (some (token_local, rl), app'') | none ↦ (none, app'') ])
      ]

  -- `check_all_rate_limits`
  unfoldable pub check_all_rate_limits :
      AppConfig F
      → AppState F G R
      → Str
      → Str
      → ℕ
      → ℕ
      → ℕ
      → ℕ
      → Option (Limited × RateLimitResult F) × AppState F G R
  unfolding check_team_limits check_token_limits
  check_all_rate_limits cfg app team token_key token_rpm token_tpm now unix =
      let (refused, app') = check_team_limits cfg app team now unix in
      elim refused [
        | some r ↦ (some r, app')
        | none ↦ check_token_limits app' token_key token_rpm token_tpm now unix
      ]
