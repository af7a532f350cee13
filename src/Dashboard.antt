-- ===== src/Dashboard.antt =====
-- src/health/dashboard.rs: the reports of GET /health and GET /stats, as records whose fields are
-- the members of the JSON. `mask` is `mask_endpoint_url`. The HTML page is left out.
pub mod Visible
pub mod Page
use rust_ai_router.Auth.{AuthContext}
use rust_ai_router.Base.{
  ℕ, suc, zero, ◌+◌, Bool, true, false, Option, none, some, List, [], ◌∷◌, ◌++◌, Str, bytes, length,
  map, contains, keep, map_or, get_or, ltb, if◌then◌else◌, Float,
}
use rust_ai_router.Base.Dict
use rust_ai_router.Base.Dict.{Dict}
use rust_ai_router.Base.Int.{ℤ, pos}
use rust_ai_router.Config.{AppConfig, ModelConfig, EndpointConfig, token_has_model_access}
use rust_ai_router.Fail2ban.{is_banned}
use rust_ai_router.Health.{health_of}
use rust_ai_router.Keys.{endpoint_key, endpoint_limit_key, team_limit_key}
use rust_ai_router.Proxy.Limits.{team_limits_of}
use rust_ai_router.Proxy.State.{AppState, with_fail2ban, with_limiters}
use rust_ai_router.RateLimit.Store.{Governor, get_tpm_state}

-- An endpoint in GET /health.
pub record EndpointHealthReport : Type 0 where
  pub model : Str
  pub endpoint_index : ℕ
  pub url : Str
  pub healthy : Bool
  pub banned : Bool
  pub last_error : Str
  pub requests : ℕ
  pub errors : ℕ
  pub last_latency_ms : ℕ
  pub rpm_limit : ℕ
  pub tpm_limit : ℕ

pub record HealthReport : Type 0 where
  pub models : ℕ
  pub endpoints : List EndpointHealthReport
  pub active_tokens : ℕ
  pub active_teams : ℕ

-- An endpoint in GET /stats.
pub record EndpointStats : Type 0 where
  pub model : Str
  pub url : Str
  pub requests : ℕ
  pub errors : ℕ
  pub banned : Bool
  pub healthy : Bool
  pub tpm_limit : ℕ
  pub tpm_remaining : ℤ

-- The requests and the errors of each key that has a request.
abbrev pub Tallies : Type 0
Tallies = List (Str × ℕ × ℕ)

pub record StatsReport : Type 0 where
  pub token_key : Str
  pub team : Str
  pub is_admin : Bool
  pub token_requests : ℕ
  pub token_errors : ℕ
  pub token_tpm_limit : ℕ
  pub token_tpm_remaining : ℤ
  pub team_requests : ℕ
  pub team_errors : ℕ
  pub team_tpm_limit : ℕ
  pub team_tpm_remaining : ℤ
  pub endpoints : List EndpointStats
  pub all_tokens : Option Tallies
  pub all_teams : Option Tallies

module _ {F G R : Type 0} where
  -- One endpoint of GET /health.
  unfoldable pub report_health :
      (Str → Str)
      → Str
      → ℕ
      → EndpointConfig F
      → ℕ
      → AppState F G R
      → EndpointHealthReport × AppState F G R
  unfolding is_banned endpoint_key
  report_health mask model index ep now app =
      let key = endpoint_key ep in
      let (banned, fb) = is_banned app.limits.fail2ban key now in
      let health = health_of app.health_store key in
      (
        record {
          model = model;
          endpoint_index = index;
          url = mask ep.url;
          healthy = map_or true (λ h. h.healthy) health;
          banned = banned;
          last_error = map_or [] (λ h. h.last_error) health;
          requests = map_or 0 (λ h. h.request_count) health;
          errors = map_or 0 (λ h. h.error_count) health;
          last_latency_ms = map_or 0 (λ h. h.last_latency_ms) health;
          rpm_limit = map_or 0 (λ l. l.rpm) ep.limits;
          tpm_limit = map_or 0 (λ l. l.tpm) ep.limits;
        },
        with_fail2ban app fb,
      )

  unfoldable pub report_endpoints :
      (Str → Str)
      → Str
      → ℕ
      → List (EndpointConfig F)
      → ℕ
      → AppState F G R
      → List EndpointHealthReport × AppState F G R
  unfolding report_health
  report_endpoints mask model index [] now app = ([], app)
  report_endpoints mask model index (ep ∷ eps) now app =
      let (one, app') = report_health mask model index ep now app in
      let (rest, app'') = report_endpoints mask model (suc index) eps now app' in
      (one ∷ rest, app'')

  unfoldable pub report_models :
      (Str → Str)
      → List (ModelConfig F)
      → ℕ
      → AppState F G R
      → List EndpointHealthReport × AppState F G R
  unfolding report_endpoints
  report_models mask [] now app = ([], app)
  report_models mask (m ∷ ms) now app =
      let (some_of, app') = report_endpoints mask m.name 0 m.endpoints now app in
      let (rest, app'') = report_models mask ms now app' in (some_of ++ rest, app'')

  -- `health_json`
  unfoldable pub health_json :
      (Str → Str) → AppConfig F → ℕ → AppState F G R → HealthReport × AppState F G R
  unfolding report_models
  health_json mask cfg now app =
      let (endpoints, app') = report_models mask cfg.models now app in
      (
        record {
          models = length cfg.models;
          endpoints = endpoints;
          active_tokens = length cfg.tokens;
          active_teams = length cfg.teams;
        },
        app',
      )

abbrev pub tally : Dict ℕ → Str → ℕ
tally d key = get_or (Dict.get d key) 0

-- `all_tokens` and `all_teams`
abbrev pub tallies : Dict ℕ → Dict ℕ → Tallies
tallies requests errors = map (λ entry. (entry.0, entry.1, tally errors entry.0)) requests

module _ {F G R : Type 0} ⦃fl : Float F⦄ ⦃gov : Governor G⦄ where
  -- The tokens that are left of a limit; 0 without one.
  unfoldable pub remaining_of : AppState F G R → Str → ℕ → ℕ → ℕ → ℤ × AppState F G R
  unfolding get_tpm_state
  remaining_of app key tpm now unix =
      let (state, limiters) = get_tpm_state app.limits.limiters key tpm now unix in
      if ltb 0 tpm then (state.1, with_limiters app limiters) else (pos 0, app)

  -- One endpoint of GET /stats.
  unfoldable pub report_stats :
      (Str → Str) → Str → EndpointConfig F → ℕ → ℕ → AppState F G R → EndpointStats × AppState F G R
  unfolding is_banned endpoint_key remaining_of
  report_stats mask model ep now unix app =
      let key = endpoint_key ep in
      let (banned, fb) = is_banned app.limits.fail2ban key now in
      let tpm = map_or 0 (λ l. l.tpm) ep.limits in
      let (remaining, app') =
        remaining_of (with_fail2ban app fb) (endpoint_limit_key key) tpm now unix in
      (
        record {
          model = model;
          url = mask ep.url;
          requests = tally app.live_stats.requests_by_endpoint key;
          errors = tally app.live_stats.errors_by_endpoint key;
          banned = banned;
          healthy = map_or true (λ h. h.healthy) (health_of app.health_store key);
          tpm_limit = tpm;
          tpm_remaining = remaining;
        },
        app',
      )

  unfoldable pub stats_of_endpoints :
      (Str → Str)
      → Str
      → List (EndpointConfig F)
      → ℕ
      → ℕ
      → AppState F G R
      → List EndpointStats × AppState F G R
  unfolding report_stats
  stats_of_endpoints mask model [] now unix app = ([], app)
  stats_of_endpoints mask model (ep ∷ eps) now unix app =
      let (one, app') = report_stats mask model ep now unix app in
      let (rest, app'') = stats_of_endpoints mask model eps now unix app' in (one ∷ rest, app'')

  unfoldable pub stats_of_models :
      (Str → Str)
      → List (ModelConfig F)
      → ℕ
      → ℕ
      → AppState F G R
      → List EndpointStats × AppState F G R
  unfolding stats_of_endpoints
  stats_of_models mask [] now unix app = ([], app)
  stats_of_models mask (m ∷ ms) now unix app =
      let (some_of, app') = stats_of_endpoints mask m.name m.endpoints now unix app in
      let (rest, app'') = stats_of_models mask ms now unix app' in (some_of ++ rest, app'')

  -- `stats_json`
  unfoldable pub stats_json :
      (Str → Str)
      → AppConfig F
      → AuthContext F
      → ℕ
      → ℕ
      → AppState F G R
      → StatsReport × AppState F G R
  unfolding remaining_of stats_of_models token_has_model_access
  stats_json mask cfg auth now unix app =
      let live = app.live_stats in
      let is_admin = contains auth.models (bytes "*") in
      let team_tpm = map_or 0 (λ l. l.tpm) (team_limits_of cfg auth.team) in
      let (token_left, app1) = remaining_of app auth.token_key auth.tpm now unix in
      let (team_left, app2) = remaining_of app1 (team_limit_key auth.team) team_tpm now unix in
      let shown =
        if is_admin
        then cfg.models
        else keep (λ m. token_has_model_access cfg auth.token_key m.name) cfg.models in
      let (endpoints, app3) = stats_of_models mask shown now unix app2 in
      (
        record {
          token_key = auth.token_key;
          team = auth.team;
          is_admin = is_admin;
          token_requests = tally live.requests_by_token auth.token_key;
          token_errors = tally live.errors_by_token auth.token_key;
          token_tpm_limit = auth.tpm;
          token_tpm_remaining = token_left;
          team_requests = tally live.requests_by_team auth.team;
          team_errors = tally live.errors_by_team auth.team;
          team_tpm_limit = team_tpm;
          team_tpm_remaining = team_left;
          endpoints = endpoints;
          all_tokens =
              if is_admin then some (tallies live.requests_by_token live.errors_by_token) else none;
          all_teams =
              if is_admin then some (tallies live.requests_by_team live.errors_by_team) else none;
        },
        app3,
      )
