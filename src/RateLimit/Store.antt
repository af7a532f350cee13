-- ===== src/RateLimit/Store.antt =====
-- The store of limiters of src/ratelimit/limiter.rs, keyed by strings. The requests per minute are
-- counted by the crate `governor`, which is a parameter. `now` is the monotonic clock in
-- nanoseconds, `unix` the wall clock in seconds (`unix_now()`). Each operation runs in one piece.
pub mod Keys
pub mod Quota
use rust_ai_router.Base.{
  ℕ, ◌-◌, ◌≤◌, ◌<◌, max, Bool, true, false, ◌&&◌, Option, none, some, [], Str, ltb, leb, ◌==◌,
  if◌then◌else◌, get_or, Float,
}
use rust_ai_router.Base.Int.{ℤ, pos}
use rust_ai_router.Base.Dict.{Dict, get, put, retain}
use rust_ai_router.RateLimit.Tpm
use rust_ai_router.RateLimit.Tpm.{TpmLimiter}

-- `governor::RateLimiter::keyed(Quota::per_minute(n))`, and `check_key`, which answers with the
-- time to wait in nanoseconds or with `none`.
pub record Governor (G : Type 0) : Type 0 where
  pub per_minute : ℕ → G
  pub check_key : G → Str → ℕ → Option ℕ × G

pub data RateLimitScope : Type 0 where
  token endpoint : RateLimitScope

pub record RateLimitResult (F : Type 0) : Type 0 where
  pub allowed : Bool
  pub limit : ℕ
  pub reset_after_secs : F
  pub scope : RateLimitScope

pub record RateLimitPair (G : Type 0) : Type 0 where
  pub rpm : G
  pub tpm : TpmLimiter
  pub last_used : ℕ

abbrev pub RateLimiterStore : Type 0 → Type 0
RateLimiterStore G = Dict (RateLimitPair G)

module _ {G : Type 0} ⦃gov : Governor G⦄ where
  -- `RateLimitPair::new`: a quota of 0 per minute is taken as 1.
  unfoldable pub new_pair : ℕ → ℕ → ℕ → ℕ → RateLimitPair G
  new_pair rpm tpm now unix = record {
    rpm = gov.per_minute (max rpm 1);
    tpm = Tpm.new tpm now;
    last_used = unix;
  }

  -- `get_or_create`: the limits count only for a key that is new. The pair is shared (`Arc`): a
  -- caller writes it back under its key.
  unfoldable pub get_or_create : RateLimiterStore G → Str → ℕ → ℕ → ℕ → ℕ → RateLimitPair G
  get_or_create store key rpm tpm now unix = get_or (get store key) (new_pair rpm tpm now unix)

  -- `consume_tpm`
  unfoldable pub consume_tpm : RateLimiterStore G → Str → ℕ → ℕ → ℕ → ℕ → RateLimiterStore G
  consume_tpm store key tpm tokens now unix =
      if tpm == 0
      then store
      else if tokens == 0
      then store
      else (let pair = get_or_create store key 0 tpm now unix in
          put store key (record pair { tpm = Tpm.consume_n pair.tpm tokens now; last_used = unix }))

  -- `get_tpm_state`
  unfoldable pub get_tpm_state : RateLimiterStore G → Str → ℕ → ℕ → ℕ → (ℕ × ℤ) × RateLimiterStore G
  get_tpm_state store key tpm now unix =
      if tpm == 0
      then ((0, pos 0), store)
      else (let pair = get_or_create store key 0 tpm now unix in
          let (remaining, tpm') = Tpm.window_remaining pair.tpm now in
          ((tpm, remaining), put store key (record pair { tpm = tpm' })))

  -- One round of the task that `start_cleanup` spawns.
  unfoldable pub cleanup : RateLimiterStore G → ℕ → RateLimiterStore G
  cleanup store unix = retain (λ pair. ltb (unix - pair.last_used) 600) store

  module _ {F : Type 0} ⦃fl : Float F⦄ where
    -- The first half of `check`: `some` is the time to wait.
    unfoldable pub check_rpm :
        RateLimiterStore G → Str → ℕ → ℕ → ℕ → ℕ → Option F × RateLimiterStore G
    check_rpm store key rpm tpm now unix =
        if rpm == 0
        then (none, store)
        else (let pair = get_or_create store key rpm tpm now unix in
            let (answer, rpm') = gov.check_key pair.rpm key now in
            let store' = put store key (record pair { rpm = rpm'; last_used = unix }) in
            elim answer [ none ↦ (none, store') | some wait ↦ (some (fl.of_nanos wait), store') ])

    -- Its second half.
    unfoldable pub check_tpm :
        RateLimiterStore G → Str → ℕ → ℕ → ℕ → ℕ → ℕ → Option F × RateLimiterStore G
    check_tpm store key rpm tpm estimated_tokens now unix =
        if ltb 0 tpm && ltb 0 estimated_tokens
        then (let pair = get_or_create store key rpm tpm now unix in
            let (answer, tpm') = Tpm.check_n pair.tpm estimated_tokens now in
            (answer, put store key (record pair { tpm = tpm'; last_used = unix })))
        else (none, store)

    -- `check`
    unfoldable pub check :
        RateLimiterStore G
        → Str
        → ℕ
        → ℕ
        → ℕ
        → RateLimitScope
        → ℕ
        → ℕ
        → RateLimitResult F × RateLimiterStore G
    check store key rpm tpm estimated_tokens scope now unix =
        let (rpm_wait, store') = check_rpm store key rpm tpm now unix in
        elim rpm_wait [
          | some wait ↦ (
            record { allowed = false; limit = rpm; reset_after_secs = wait; scope = scope },
            store',
          )
          | none ↦
              (let (tpm_wait, store'') = check_tpm store' key rpm tpm estimated_tokens now unix in
                elim tpm_wait [
                  | some wait ↦ (
                    record { allowed = false; limit = tpm; reset_after_secs = wait; scope = scope },
                    store'',
                  )
                  | none ↦ (
                    record {
                      allowed = true;
                      limit = if ltb 0 rpm then rpm else tpm;
                      reset_after_secs = fl.of_u64 0;
                      scope = scope;
                    },
                    store'',
                  )
                ])
        ]
