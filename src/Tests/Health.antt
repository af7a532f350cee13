-- ===== src/Tests/Health.antt =====
-- src/health/checker.rs on an endpoint that is down, and then up.
use rust_ai_router.Base.{ℕ, ◌≡◌, refl, true, false, some, List, [], ◌∷◌, ◌++◌, bytes, same, map_opt}
use rust_ai_router.Base.Dict
use rust_ai_router.Config.{AppConfig, EndpointConfig}
use rust_ai_router.Fail2ban
use rust_ai_router.Fail2ban.{is_banned, record_failure_with_code}
use rust_ai_router.Fail2ban.Bans.{banned_at}
use rust_ai_router.Health.{
  Probe, answered, unreachable, health_of, empty_store, check_endpoints, check_endpoint,
  check_rounds, start_background_health_checker,
}
use rust_ai_router.Health.Recovers.{endpoints_of, start_background_health_checker-heals}
use rust_ai_router.Keys.{endpoint_key, mask_key}
use rust_ai_router.Samples.{milli, config, long_endpoint, breaker}

abbrev round_at : ℕ → Probe → AppConfig ℕ × (EndpointConfig ℕ → ℕ × Probe)
round_at now probe = (config, λ ep. (now, probe))

abbrev down : List (AppConfig ℕ × (EndpointConfig ℕ → ℕ × Probe))
down =
    round_at 1 (unreachable (bytes "timeout"))
    ∷ round_at 2 (answered 500)
    ∷ round_at 3 (unreachable (bytes "timeout"))
    ∷ []

down_bans :
    banned_at (check_rounds down breaker empty_store).0 (endpoint_key long_endpoint) 9 ≡ true
unfolding is_banned Dict.get check_rounds check_endpoints check_endpoint Fail2ban.new
    record_failure_with_code Dict.put same endpoint_key mask_key
down_bans = refl

start_background_health_checker-heals_example :
    let after =
      start_background_health_checker 30
        (down ++ (config, λ ep. (8, answered 204)) ∷ [])
        breaker
        empty_store in
    (banned_at after.0 (endpoint_key long_endpoint) 9 ≡ false)
    × (map_opt (λ h. h.healthy) (health_of after.1 (endpoint_key long_endpoint)) ≡ some true)
unfolding endpoints_of same endpoint_key mask_key
start_background_health_checker-heals_example =
    start_background_health_checker-heals 30 down config (λ ep. (8, answered 204)) breaker
      empty_store (endpoint_key long_endpoint) 9 refl refl refl
