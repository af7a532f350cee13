-- ===== src/RateLimit/Store/Quota.antt =====
-- Which quota of requests a key has.
use rust_ai_router.Base.{ℕ, ◌<◌, ◌≡◌, none, some, map_opt, Str, same_refl, arith, Float}
use rust_ai_router.Base.Dict.{get, get-put}
use rust_ai_router.RateLimit.Store.{
  Governor, RateLimitScope, RateLimitPair, RateLimiterStore, new_pair, get_or_create, check_rpm,
  check_tpm, check, get_tpm_state,
}

module _ {G : Type 0} ⦃gov : Governor G⦄ (F : Type 0) ⦃fl : Float F⦄ where
  -- The first request of a key with a limit is judged by a limiter of that limit.
  check_rpm_fresh :
      (store : RateLimiterStore G) (key : Str) (rpm tpm now unix : ℕ)
      → get store key ≡ none
      → 0 < rpm
      → (check_rpm {F = F} store key rpm tpm now unix).0
        ≡ map_opt fl.of_nanos (gov.check_key (gov.per_minute rpm) key now).0
  unfolding check_rpm get_or_create new_pair
  check_rpm_fresh store key rpm tpm now unix fresh pos = grind (arith)

  -- When the state of a key that has no limiter yet is looked at first (as `/stats` does), its
  -- limiter is made with a quota of 1 request a minute, and its next request is judged by that,
  -- whatever its limit is.
  pub get_tpm_state-quota_one :
      (store : RateLimiterStore G) (key : Str) (rpm tpm now unix later unix' : ℕ)
      → get store key ≡ none
      → 0 < tpm
      → 0 < rpm
      → (check_rpm {F = F} (get_tpm_state store key tpm now unix).1 key rpm tpm later unix').0
        ≡ map_opt fl.of_nanos (gov.check_key (gov.per_minute 1) key later).0
  unfolding check_rpm get_tpm_state get_or_create new_pair
  get_tpm_state-quota_one store key rpm tpm now unix later unix' fresh ht hr =
      grind (arith, get-put, same_refl)

  check_rpm_known :
      (store : RateLimiterStore G) (key : Str) (pair : RateLimitPair G)
      (rpm tpm rpm' tpm' now unix : ℕ)
      → get store key ≡ some pair
      → 0 < rpm
      → 0 < rpm'
      → (check_rpm {F = F} store key rpm tpm now unix ≡ check_rpm store key rpm' tpm' now unix)
        × ((next : RateLimitPair G) × (get (check_rpm {F = F} store key rpm tpm now unix).1 key
              ≡ some next))
  unfolding check_rpm get_or_create
  check_rpm_known store key pair rpm tpm rpm' tpm' now unix known h h' = (
    ground arith,
    (
      record pair { rpm = (gov.check_key pair.rpm key now).1; last_used = unix },
      grind (arith, get-put, same_refl),
    ),
  )

  check_tpm_known :
      (store : RateLimiterStore G) (key : Str) (pair : RateLimitPair G)
      (rpm tpm rpm' tpm' estimated now unix : ℕ)
      → get store key ≡ some pair
      → 0 < tpm
      → 0 < tpm'
      → check_tpm {F = F} store key rpm tpm estimated now unix
        ≡ check_tpm store key rpm' tpm' estimated now unix
  unfolding check_tpm get_or_create
  check_tpm_known store key pair rpm tpm rpm' tpm' estimated now unix known h h' = ground arith

  -- Once a key has a limiter, its limits in the configuration no longer count, but for whether they
  -- are 0: checks with other limits give the same verdict and the same store.
  pub check-limits_frozen :
      (store : RateLimiterStore G) (key : Str) (pair : RateLimitPair G)
      (rpm tpm rpm' tpm' estimated now unix : ℕ) (scope : RateLimitScope)
      → get store key ≡ some pair
      → 0 < rpm
      → 0 < tpm
      → 0 < rpm'
      → 0 < tpm'
      → ((check {F = F} store key rpm tpm estimated scope now unix).0.allowed
          ≡ (check {F = F} store key rpm' tpm' estimated scope now unix).0.allowed)
        × ((check {F = F} store key rpm tpm estimated scope now unix).1
            ≡ (check {F = F} store key rpm' tpm' estimated scope now unix).1)
  unfolding check
  check-limits_frozen store key pair rpm tpm rpm' tpm' estimated now unix scope known h1 h2 h3 h4 =
      let (same_rpm, after) =
        check_rpm_known store key pair rpm tpm rpm' tpm' now unix known h1 h3 in
      let (next, kept) = after in
      let same_tpm =
        check_tpm_known (check_rpm {F = F} store key rpm tpm now unix).1 key next rpm tpm rpm' tpm'
          estimated now unix kept h2 h4 in
      ground (arith, same_rpm, same_tpm)
