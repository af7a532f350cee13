-- ===== src/Proxy/Limits/Order.antt =====
-- The budget of the team is asked before that of the token.
use rust_ai_router.Base.{ℕ, ◌≡◌, refl, false, some, Str, same, arith, Float}
use rust_ai_router.Base.Dict.{get}
use rust_ai_router.Config.{AppConfig}
use rust_ai_router.Keys.{team_limit_key}
use rust_ai_router.Proxy.Limits.{
  Limited, shared_limit, local_limit, check_team_limits, check_all_rate_limits,
}
use rust_ai_router.Proxy.State.{AppState}
use rust_ai_router.RateLimit.Store.{Governor, RateLimitResult, RateLimitScope}
use rust_ai_router.RateLimit.Store.Keys.{other_keys_untouched}
use rust_ai_router.Sync.{Redis}

module _ {F G R : Type 0} ⦃fl : Float F⦄ ⦃gov : Governor G⦄ ⦃redis : Redis R⦄ where
  get-local_limit :
      (app : AppState F G R) (key other : Str) (rpm tpm : ℕ) (scope : RateLimitScope) (now unix : ℕ)
      → same key other ≡ false
      → get (local_limit app key rpm tpm scope now unix).1.limits.limiters other
        ≡ get app.limits.limiters other
  unfolding local_limit
  get-local_limit app key other rpm tpm scope now unix ne =
      (other_keys_untouched F app.limits.limiters key other rpm tpm 1 now unix scope ne).0

  get-shared_limit :
      (app : AppState F G R) (scope key other : Str) (limit : ℕ)
      → get (shared_limit app scope key limit).1.limits.limiters other
        ≡ get app.limits.limiters other
  unfolding shared_limit
  get-shared_limit app scope key other limit = refl

  get-check_team_limits :
      (cfg : AppConfig F) (app : AppState F G R) (team other : Str) (now unix : ℕ)
      → same (team_limit_key team) other ≡ false
      → get (check_team_limits cfg app team now unix).1.limits.limiters other
        ≡ get app.limits.limiters other
  unfolding check_team_limits
  get-check_team_limits cfg app team other now unix ne =
      grind (arith, get-local_limit, get-shared_limit)

  -- A request that its team's budget refuses is refused, and costs its token nothing: the limiter
  -- of the token is as before, unless its key reads like the team's.
  pub team_refusal-spares_token :
      (cfg : AppConfig F) (app : AppState F G R) (team token_key : Str) (rpm tpm now unix : ℕ)
      (refusal : Limited × RateLimitResult F)
      → same (team_limit_key team) token_key ≡ false
      → (check_team_limits cfg app team now unix).0 ≡ some refusal
      → ((check_all_rate_limits cfg app team token_key rpm tpm now unix).0 ≡ some refusal)
        × (get
              (check_all_rate_limits cfg app team token_key rpm tpm now unix).1.limits.limiters
              token_key
            ≡ get app.limits.limiters token_key)
  unfolding check_all_rate_limits
  team_refusal-spares_token cfg app team token_key rpm tpm now unix refusal ne refused = (
    rw (check_all_rate_limits, refused) refl,
    rw (check_all_rate_limits, refused) (get-check_team_limits cfg app team token_key now unix ne),
  )
