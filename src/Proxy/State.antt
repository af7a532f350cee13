-- ===== src/Proxy/State.antt =====
-- src/proxy/handler.rs: the state of the program. The HTTP client is outside: `sent` is the list
-- of the requests that it has been given, the last one first. The Prometheus counters and the
-- statistics database are only written to, and are left out.
use rust_ai_router.Base.{ℕ, ◌+◌, ◌%◌, u64_mod, List, Str, get_or}
use rust_ai_router.Base.Dict.{Dict, get, put}
use rust_ai_router.Fail2ban.{Fail2ban}
use rust_ai_router.Health.{HealthStore}
use rust_ai_router.RateLimit.Store.{RateLimiterStore}
use rust_ai_router.Router.Balancer.{Counters, SelectedEndpoint}
use rust_ai_router.Router.Sticky.{SessionStickyStore}
use rust_ai_router.Sync.{SyncStore}

pub record RateLimitState (F G R : Type 0) : Type 0 where
  pub limiters : RateLimiterStore G
  pub fail2ban : Fail2ban F
  pub sync : SyncStore R

pub record SessionState : Type 0 where
  pub sticky : SessionStickyStore
  pub sticky_ttl_secs : ℕ

pub record LiveStats : Type 0 where
  pub requests_total : ℕ
  pub requests_by_token : Dict ℕ
  pub requests_by_team : Dict ℕ
  pub requests_by_endpoint : Dict ℕ
  pub errors_by_token : Dict ℕ
  pub errors_by_team : Dict ℕ
  pub errors_by_endpoint : Dict ℕ

-- `*map.entry(key).or_insert(0) += 1`
abbrev pub bump : Dict ℕ → Str → ℕ
bump d key = get_or (get d key) 0 + 1

-- `LiveStats::record_request`
unfoldable pub count_request : LiveStats → Str → Str → Str → LiveStats
count_request live token team endpoint = record live {
  requests_total = (live.requests_total + 1) % u64_mod;
  requests_by_token = put live.requests_by_token token (bump live.requests_by_token token);
  requests_by_team = put live.requests_by_team team (bump live.requests_by_team team);
  requests_by_endpoint =
      put live.requests_by_endpoint endpoint (bump live.requests_by_endpoint endpoint);
}

-- `LiveStats::record_error`
unfoldable pub count_error : LiveStats → Str → Str → Str → LiveStats
count_error live token team endpoint = record live {
  errors_by_token = put live.errors_by_token token (bump live.errors_by_token token);
  errors_by_team = put live.errors_by_team team (bump live.errors_by_team team);
  errors_by_endpoint = put live.errors_by_endpoint endpoint (bump live.errors_by_endpoint endpoint);
}

pub record AppState (F G R : Type 0) : Type 0 where
  pub router : Counters
  pub limits : RateLimitState F G R
  pub session : SessionState
  pub health_store : HealthStore
  pub live_stats : LiveStats
  pub sent : List (SelectedEndpoint F)

module _ {F G R : Type 0} where
  abbrev pub with_limiters : AppState F G R → RateLimiterStore G → AppState F G R
  with_limiters app limiters = record app { limits = record app.limits { limiters = limiters } }

  abbrev pub with_fail2ban : AppState F G R → Fail2ban F → AppState F G R
  with_fail2ban app fail2ban = record app { limits = record app.limits { fail2ban = fail2ban } }

  abbrev pub with_sync : AppState F G R → SyncStore R → AppState F G R
  with_sync app sync = record app { limits = record app.limits { sync = sync } }

  abbrev pub with_sticky : AppState F G R → SessionStickyStore → AppState F G R
  with_sticky app sticky = record app { session = record app.session { sticky = sticky } }
