-- ===== src/Proxy/Attempt.antt =====
-- src/proxy/handler.rs: the body of the retry loop of `proxy_handler`. What the endpoint answers,
-- and when, is a parameter. The two `tokio::spawn` of Redis updates run at once.
pub mod Cases
pub mod Outbox
use rust_ai_router.Base.{
  ℕ, ◌+◌, ◌-◌, ◌≤◌, ◌<◌, min, u64_mod, as_millis, Bool, true, false, not, ◌&&◌, ◌||◌, Option, none,
  some, List, [], ◌∷◌, ◌++◌, Str, bytes, contains, get_or, map_or, ltb, ◌==◌, if◌then◌else◌, Float,
}
use rust_ai_router.Config.{AppConfig, LimitsConfig}
use rust_ai_router.Fail2ban
use rust_ai_router.Fail2ban.{Fail2ban, is_fail_status, record_failure_with_code, record_failure}
use rust_ai_router.Health
use rust_ai_router.Keys.{mask_key, team_limit_key, endpoint_limit_key}
use rust_ai_router.Proxy.Limits.{
  Limited, endpoint_shared, endpoint_local, shared_limit, local_limit, team_limits_of,
}
use rust_ai_router.Proxy.State.{
  AppState, count_request, count_error, with_limiters, with_fail2ban, with_sync, with_sticky,
}
use rust_ai_router.RateLimit.Store.{Governor, RateLimitResult, endpoint, consume_tpm}
use rust_ai_router.Router.Balancer.{SelectedEndpoint, select_available}
use rust_ai_router.Router.Sticky
use rust_ai_router.Sync.{Redis, set_ban, set_sticky}

-- What `send()` comes to: an error, or a status with the prompt and completion tokens that the
-- body reports.
pub data Outcome : Type 0 where
  network_error : Outcome
  answered : ℕ → ℕ → ℕ → Outcome

-- One round of the loop: when it begins, and when and how the endpoint answers.
pub record Round : Type 0 where
  pub now : ℕ
  pub unix : ℕ
  pub answered_at : ℕ
  pub outcome : Outcome

-- The responses of the handler; `last_error` is an answer that was kept while other endpoints were
-- tried.
pub data Reply (F : Type 0) : Type 0 where
  bad_request unauthorized : Reply F
  forbidden all_banned no_endpoint : Str → Reply F
  limited : Limited → RateLimitResult F → Reply F
  relayed last_error : SelectedEndpoint F → ℕ → Reply F
  upstream_error all_failed : Reply F

-- What is fixed before the loop starts.
pub record Prepared : Type 0 where
  pub token_key : Str
  pub team : Str
  pub token_tpm : ℕ
  pub canonical_model : Str
  pub is_stream : Bool
  pub session_id : Option Str
  pub banned_keys : List Str

-- The variables of the loop.
pub record Turn (F : Type 0) : Type 0 where
  pub current_endpoint : SelectedEndpoint F
  pub tried_keys : List Str
  pub last_error_response : Option (Reply F)

-- How a round ends.
pub data Next (F : Type 0) : Type 0 where
  done : Reply F → Next F
  again : Turn F → Next F

-- `set.insert(key)` on a `HashSet`
abbrev pub insert : List Str → Str → List Str
insert xs k = if contains xs k then xs else k ∷ xs

-- `prompt.saturating_add(completion)`
abbrev pub saturating_add : ℕ → ℕ → ℕ
saturating_add a b = min (a + b) (u64_mod - 1)

module _ {F : Type 0} where
  -- `format!("{}:{}", current_endpoint.url, mask_key(&current_endpoint.api_key))`
  unfoldable pub selected_key : SelectedEndpoint F → Str
  selected_key ep = ep.url ++ bytes ":" ++ mask_key ep.api_key

module _ {F G R : Type 0} ⦃fl : Float F⦄ ⦃gov : Governor G⦄ ⦃redis : Redis R⦄ where
  -- The limits of the endpoint itself.
  unfoldable pub endpoint_limits :
      AppState F G R
      → SelectedEndpoint F
      → ℕ
      → ℕ
      → Option (Limited × RateLimitResult F) × AppState F G R
  unfolding shared_limit local_limit
  endpoint_limits app ep now unix =
      let rpm = ep.endpoint_limits_rpm in
      let tpm = ep.endpoint_limits_tpm in
      let (shared, app') =
        if ltb 0 rpm then shared_limit app (bytes "ep") (selected_key ep) rpm else (none, app) in
      if ltb 0 rpm || ltb 0 tpm
      then elim shared [
        | some rl ↦ (some (endpoint_shared, rl), app')
        | none ↦
            (let (own, app'') =
                local_limit app' (endpoint_limit_key (selected_key ep)) rpm tpm endpoint now unix in
              elim own [ some rl ↦ (some (endpoint_local, rl), app'') | none ↦ (none, app'') ])
      ]
      else (none, app)

  -- The deduction after the fact: the tokens used beyond the one that was checked.
  unfoldable pub consume_usage :
      AppConfig F → Prepared → SelectedEndpoint F → AppState F G R → ℕ → ℕ → ℕ → AppState F G R
  consume_usage cfg p ep app total now unix =
      let team_tpm = map_or 0 (λ l. l.tpm) (team_limits_of cfg p.team) in
      let limiters = app.limits.limiters in
      let by_team =
        if ltb 0 team_tpm
        then consume_tpm limiters (team_limit_key p.team) team_tpm (total - 1) now unix
        else limiters in
      let by_token =
        if ltb 0 p.token_tpm
        then consume_tpm by_team p.token_key p.token_tpm (total - 1) now unix
        else by_team in
      let by_endpoint =
        if ltb 0 ep.endpoint_limits_tpm
        then consume_tpm by_token (endpoint_limit_key (selected_key ep)) ep.endpoint_limits_tpm
            (total - 1) now unix
        else by_token in
      if ltb 1 total then with_limiters app by_endpoint else app

  -- The next endpoint, or the reply when there is none.
  unfoldable pub fail_over :
      AppConfig F
      → Prepared
      → AppState F G R
      → List Str
      → Option (Reply F)
      → Reply F
      → Next F × AppState F G R
  fail_over cfg p app tried last exhausted =
      let (selected, router) =
        select_available cfg app.router p.canonical_model p.banned_keys tried in
      elim selected [
        | none ↦ (done exhausted, record app { router = router })
        | some ep ↦ (
          again (record { current_endpoint = ep; tried_keys = tried; last_error_response = last }),
          record app { router = router },
        )
      ]

  -- The end of the loop's body.
  unfoldable pub next_endpoint :
      AppConfig F
      → Prepared
      → AppState F G R
      → List Str
      → Option (Reply F)
      → Next F × AppState F G R
  unfolding fail_over
  next_endpoint cfg p app tried last = fail_over cfg p app tried last (get_or last all_failed)

  -- `if just_banned { sync.set_ban(&ep, 60) }`
  abbrev pub share_ban : AppState F G R → Str → Bool → AppState F G R
  share_ban app key just_banned =
      if just_banned then with_sync app (set_ban app.limits.sync key 60) else app

  -- What the ban list and the health store record of an answer.
  unfoldable pub judge : AppState F G R → Str → ℕ → ℕ → AppState F G R
  judge app key status now =
      let (just_banned, fb) = record_failure_with_code app.limits.fail2ban key status now in
      let blamed = share_ban (with_fail2ban app fb) key just_banned in
      if is_fail_status app.limits.fail2ban status
      then record blamed { health_store = Health.record_error app.health_store key }
      else with_fail2ban app (Fail2ban.record_success app.limits.fail2ban key)

  -- An answer that is returned to the client.
  unfoldable pub deliver :
      AppConfig F → Prepared → AppState F G R → SelectedEndpoint F → ℕ → Round → AppState F G R
  unfolding consume_usage
  deliver cfg p app ep total a =
      let key = selected_key ep in
      let health =
        Health.record_latency (Health.record_request app.health_store key) key
          (as_millis (a.answered_at - a.now)) in
      let app' = record app { health_store = health } in
      let stuck : AppState F G R = elim p.session_id [
        | none ↦ app'
        | some sid ↦
            with_sync (with_sticky app' (Sticky.set app.session.sticky sid ep.index a.answered_at))
              (set_sticky app.limits.sync sid ep.index app.session.sticky_ttl_secs)
      ] in
      let paid = consume_usage cfg p ep stuck total a.answered_at a.unix in
      if p.is_stream
      then stuck
      else record paid { live_stats = count_request app.live_stats p.token_key p.team key }

  -- The endpoint answers with a status.
  unfoldable pub on_answer :
      AppConfig F → Prepared → AppState F G R → Turn F → ℕ → ℕ → Round → Next F × AppState F G R
  unfolding judge deliver next_endpoint
  on_answer cfg p app turn status total a =
      let ep = turn.current_endpoint in
      let key = selected_key ep in
      let should_retry =
        cfg.fail2ban.retry_on_failure && is_fail_status app.limits.fail2ban status in
      let judged = judge app key status a.answered_at in
      let blamed = record judged {
        live_stats = count_error app.live_stats p.token_key p.team key;
      } in
      if ltb status 400 || not should_retry
      then (done (relayed ep status), deliver cfg p judged ep total a)
      else next_endpoint cfg p blamed (insert turn.tried_keys key) (some (last_error ep status))

  -- The request does not get through.
  unfoldable pub on_network_error :
      AppConfig F → Prepared → AppState F G R → Turn F → Round → Next F × AppState F G R
  unfolding next_endpoint record_failure
  on_network_error cfg p app turn a =
      let key = selected_key turn.current_endpoint in
      let (just_banned, fb) = record_failure app.limits.fail2ban key a.answered_at in
      let blamed = share_ban (with_fail2ban app fb) key just_banned in
      let noted = record blamed {
        live_stats = count_error app.live_stats p.token_key p.team key;
        health_store = Health.record_error app.health_store key;
      } in
      if cfg.fail2ban.retry_on_failure
      then next_endpoint cfg p noted (insert turn.tried_keys key) (some upstream_error)
      else (done upstream_error, noted)

  -- What follows the answer. A streamed request that does not get through ends the loop at once.
  unfoldable pub on_outcome :
      AppConfig F → Prepared → AppState F G R → Turn F → Round → Outcome → Next F × AppState F G R
  on_outcome cfg p app turn a (answered status prompt completion) =
      on_answer cfg p app turn status (saturating_add prompt completion) a
  on_outcome cfg p app turn a network_error =
      if p.is_stream then (done upstream_error, app) else on_network_error cfg p app turn a

  -- What follows the limits of the endpoint: the next endpoint, or the request.
  unfoldable pub on_limits :
      AppConfig F
      → Prepared
      → AppState F G R
      → Turn F
      → Round
      → Option (Limited × RateLimitResult F)
      → Next F × AppState F G R
  unfolding fail_over on_outcome
  on_limits cfg p app turn a (some rl) =
      fail_over cfg p app (insert turn.tried_keys (selected_key turn.current_endpoint))
        turn.last_error_response (limited rl.0 rl.1)
  on_limits cfg p app turn a none =
      on_outcome cfg p (record app { sent = turn.current_endpoint ∷ app.sent }) turn a a.outcome

  -- One round of the loop.
  unfoldable pub attempt :
      AppConfig F → Prepared → AppState F G R → Turn F → Round → Next F × AppState F G R
  unfolding endpoint_limits on_limits
  attempt cfg p app turn a =
      let (refused, app') = endpoint_limits app turn.current_endpoint a.now a.unix in
      on_limits cfg p app' turn a refused
