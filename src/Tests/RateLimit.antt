-- ===== src/Tests/RateLimit.antt =====
-- src/ratelimit/limiter.rs and src/sync/redis_sync.rs at concrete limits.
use rust_ai_router.Base.{
  ℕ, ◌+◌, ◌*◌, ◌≤◌, max, from_secs, ◌≡◌, refl, none, some, List, [], ◌∷◌, Str, bytes, same,
  same_refl, get_or, arith,
}
use rust_ai_router.Base.Dict
use rust_ai_router.Base.Dict.{Dict, get-put}
use rust_ai_router.Base.Int.{pos}
use rust_ai_router.RateLimit.Store.{RateLimitPair, RateLimiterStore, token, check}
use rust_ai_router.RateLimit.Store.Quota.{check-limits_frozen}
use rust_ai_router.RateLimit.Tpm
use rust_ai_router.RateLimit.Tpm.{TpmLimiter, TpmState, consume_n, check_n, refill}
use rust_ai_router.RateLimit.Tpm.Bucket.{minute, InRange}
use rust_ai_router.RateLimit.Tpm.Budget.{draw_all, draw_all_within_budget}
use rust_ai_router.RateLimit.Tpm.Drawn.{Draw, checks}
use rust_ai_router.RateLimit.Tpm.Recovery.{check_n-recovers}
use rust_ai_router.Samples.{milli, counting, memory}
use rust_ai_router.Sync.{SyncStore, set_sticky, get_sticky}
use rust_ai_router.Sync.RoundTrip.{get_sticky-set_sticky}
use rust_ai_router.Sync.Window.{Counting, passed, passed-min}

-- Three checks of 60 tokens against 100 a minute: the second one comes too early.
abbrev three_checks : List Draw
three_checks = checks 60 (from_secs 1) ∷ checks 60 (from_secs 2) ∷ checks 60 (from_secs 40) ∷ []

draw_all_within_budget_example :
    minute * (draw_all ℕ (Tpm.new 100 0) three_checks).0 + 0 * 100
    ≤ minute * max 100 1 + from_secs 60 * 100
draw_all_within_budget_example =
    draw_all_within_budget ℕ 100 0 (from_secs 60) three_checks (omega arith) (omega arith)
      (
        omega arith,
        omega arith,
        omega arith,
        (omega arith, omega arith, omega arith, (omega arith, omega arith, omega arith, tt)),
      )
      (omega arith, (omega arith, (omega arith, tt))) tt

-- A bucket of 100 tokens a minute that is down to 10.
abbrev low : TpmLimiter
low = record {
  capacity = 100;
  state = record { tokens = pos 10; last_update = 0; window_start = 0; window_consumed = 90 };
}

low-InRange : InRange low.capacity (from_secs 40) low.state
low-InRange = record {
  capacity_fits = omega arith;
  balance_fits = omega arith;
  debt_fits = omega arith;
  time_fits = omega arith;
  in_order = omega arith;
}

check_n-recovers_example : (check_n {F = ℕ} low 60 (from_secs 40)).0 ≡ none
check_n-recovers_example =
    check_n-recovers low 60 (from_secs 40) 50 low-InRange (omega arith) (omega arith) (omega arith)
      (omega arith)

-- No limiter yet, and one limiter, of 5 requests and 100 tokens a minute.
abbrev no_keys : RateLimiterStore (ℕ × ℕ)
no_keys = []

abbrev a_pair : RateLimitPair (ℕ × ℕ)
a_pair = record { rpm = (5, 0); tpm = low; last_used = 990 }

abbrev one_key : RateLimiterStore (ℕ × ℕ)
one_key = (bytes "a", a_pair) ∷ []

-- The limits 5 and 1000 requests a minute make no difference.
check-limits_frozen_example :
    ((check {F = ℕ} one_key (bytes "a") 5 100 1 token 10 1000).0.allowed
      ≡ (check {F = ℕ} one_key (bytes "a") 1000 9000 1 token 10 1000).0.allowed)
    × ((check {F = ℕ} one_key (bytes "a") 5 100 1 token 10 1000).1
        ≡ (check {F = ℕ} one_key (bytes "a") 1000 9000 1 token 10 1000).1)
unfolding Dict.get same
check-limits_frozen_example =
    check-limits_frozen ℕ one_key (bytes "a") a_pair 5 100 1000 9000 1 10 1000 token refl
      (omega arith) (omega arith) (omega arith) (omega arith)

-- The sample server counts.
abbrev count : Dict ℕ × Dict Str → Str → ℕ
count conn key = get_or (Dict.get conn.0 key) 0

memory-Counting : Counting count
memory-Counting = record {
  incr_count = λ conn key. refl;
  incr_after = λ conn key. grind (arith, get-put, same_refl);
  expire_after = λ conn key secs. refl;
}

-- Of seven requests against a limit of five, five pass.
passed-min_example :
    passed {R = Dict ℕ × Dict Str} ℕ
      (record { conn = some ([], []); prefix = bytes "ai" })
      (bytes "token")
      (bytes "sk-b")
      5
      7
    ≡ 5
unfolding Dict.get
passed-min_example =
    passed-min ℕ count memory-Counting (bytes "ai") (bytes "token") (bytes "sk-b") 5 (omega arith) 7
      ([], [])

-- Two instances with the same server.
abbrev connected : SyncStore (Dict ℕ × Dict Str)
connected = record { conn = some ([], []); prefix = bytes "ai" }

kept :
    (c : Dict ℕ × Dict Str) (key value : Str) (secs : ℕ)
    → (memory.get_value (memory.set_ex c key value secs) key).0 ≡ some (some value)
kept c key value secs = rw (get-put c.1 key key value, same_refl key) refl

get_sticky-set_sticky_example :
    (get_sticky (set_sticky connected (bytes "s1") 7 60) (bytes "s1")).0 ≡ some 7
get_sticky-set_sticky_example =
    get_sticky-set_sticky connected ([], []) (bytes "s1") 7 60 refl kept (omega arith)
