-- ===== src/RateLimit/Store/Keys.antt =====
-- The limiters of different keys do not concern one another.
use rust_ai_router.Base.{ℕ, ◌≡◌, false, Str, same, arith, Float}
use rust_ai_router.Base.Dict.{get, get-put}
use rust_ai_router.RateLimit.Store.{
  Governor, RateLimitScope, RateLimiterStore, check_rpm, check_tpm, check, consume_tpm,
  get_tpm_state,
}

module _ {G : Type 0} ⦃gov : Governor G⦄ where
  get-consume_tpm :
      (store : RateLimiterStore G) (key other : Str) (tpm tokens now unix : ℕ)
      → same key other ≡ false
      → get (consume_tpm store key tpm tokens now unix) other ≡ get store other
  unfolding consume_tpm
  get-consume_tpm store key other tpm tokens now unix ne = grind (arith, get-put)

  get-get_tpm_state :
      (store : RateLimiterStore G) (key other : Str) (tpm now unix : ℕ)
      → same key other ≡ false
      → get (get_tpm_state store key tpm now unix).1 other ≡ get store other
  unfolding get_tpm_state
  get-get_tpm_state store key other tpm now unix ne = grind (arith, get-put)

  module _ (F : Type 0) ⦃fl : Float F⦄ where
    get-check_rpm :
        (store : RateLimiterStore G) (key other : Str) (rpm tpm now unix : ℕ)
        → same key other ≡ false
        → get (check_rpm {F = F} store key rpm tpm now unix).1 other ≡ get store other
    unfolding check_rpm
    get-check_rpm store key other rpm tpm now unix ne = grind (arith, get-put)

    get-check_tpm :
        (store : RateLimiterStore G) (key other : Str) (rpm tpm estimated now unix : ℕ)
        → same key other ≡ false
        → get (check_tpm {F = F} store key rpm tpm estimated now unix).1 other ≡ get store other
    unfolding check_tpm
    get-check_tpm store key other rpm tpm estimated now unix ne = grind (arith, get-put)

    -- A check, a deduction after the fact and a look at the state for one key leave the limiter of
    -- each different key as it was.
    pub other_keys_untouched :
        (store : RateLimiterStore G) (key other : Str) (rpm tpm amount now unix : ℕ)
        (scope : RateLimitScope)
        → same key other ≡ false
        → (get (check {F = F} store key rpm tpm amount scope now unix).1 other ≡ get store other)
          × (get (consume_tpm store key tpm amount now unix) other ≡ get store other)
          × (get (get_tpm_state store key tpm now unix).1 other ≡ get store other)
    unfolding check
    other_keys_untouched store key other rpm tpm amount now unix scope ne = (
      grind (arith, get-check_rpm, get-check_tpm),
      get-consume_tpm store key other tpm amount now unix ne,
      get-get_tpm_state store key other tpm now unix ne,
    )
