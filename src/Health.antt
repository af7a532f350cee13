-- ===== src/Health.antt =====
-- src/health/checker.rs. What a probe of an endpoint answers is a parameter. `now` is what
-- `Instant::now()` returns during the call; each operation runs in one piece.
pub mod Recovers
pub mod Round
use rust_ai_router.Base.{
  ℕ, ◌+◌, ◌%◌, ◌==◌, ◌≤◌, u64_mod, Bool, true, false, ◌&&◌, Option, none, some, List, [], ◌∷◌, ◌++◌,
  Str, bytes, get_or, leb, to_string, if◌then◌else◌, Float,
}
use rust_ai_router.Base.Dict
use rust_ai_router.Base.Dict.{Dict}
use rust_ai_router.Config.{AppConfig, ModelConfig, EndpointConfig}
use rust_ai_router.Fail2ban.{Fail2ban, is_banned, reset, record_failure, record_failure_with_code}
use rust_ai_router.Keys.{endpoint_key}

pub record EndpointHealth : Type 0 where
  pub healthy : Bool
  pub last_error : Str
  pub last_latency_ms : ℕ
  pub last_check : ℕ
  pub request_count : ℕ
  pub error_count : ℕ

pub record HealthStore : Type 0 where
  pub states : Dict EndpointHealth
  pub total_requests : ℕ
  pub total_errors : ℕ

-- `HealthStore::new`
abbrev pub empty_store : HealthStore
empty_store = record { states = []; total_requests = 0; total_errors = 0 }

-- `or_insert_with`: what an unseen endpoint starts from.
abbrev pub unseen : Bool → Str → ℕ → EndpointHealth
unseen healthy error now = record {
  healthy = healthy;
  last_error = error;
  last_latency_ms = 0;
  last_check = now;
  request_count = 0;
  error_count = 0;
}

abbrev pub health_of : HealthStore → Str → Option EndpointHealth
health_of store key = Dict.get store.states key

-- `if let Some(mut entry) = self.states.get_mut(key)`
unfoldable pub update : HealthStore → Str → (EndpointHealth → EndpointHealth) → HealthStore
update store key f = elim (Dict.get store.states key) [
  | none ↦ store
  | some entry ↦ record store { states = Dict.put store.states key (f entry) }
]

unfoldable pub set_healthy : HealthStore → Str → ℕ → HealthStore
set_healthy store key now =
    let entry = get_or (Dict.get store.states key) (unseen true [] now) in
    record store {
      states =
          Dict.put store.states key
            (record entry { healthy = true; last_error = []; last_check = now });
    }

unfoldable pub set_unhealthy : HealthStore → Str → Str → ℕ → HealthStore
set_unhealthy store key error now =
    let entry = get_or (Dict.get store.states key) (unseen false error now) in
    record store {
      states =
          Dict.put store.states key
            (record entry { healthy = false; last_error = error; last_check = now });
    }

unfoldable pub record_latency : HealthStore → Str → ℕ → HealthStore
unfolding update
record_latency store key latency_ms =
    update store key (λ entry. record entry { last_latency_ms = latency_ms })

unfoldable pub record_request : HealthStore → Str → HealthStore
unfolding update
record_request store key =
    update (record store { total_requests = (store.total_requests + 1) % u64_mod }) key
      (λ entry. record entry { request_count = entry.request_count + 1 })

unfoldable pub record_error : HealthStore → Str → HealthStore
unfolding update
record_error store key =
    update (record store { total_errors = (store.total_errors + 1) % u64_mod }) key
      (λ entry. record entry { error_count = entry.error_count + 1 })

-- `status().is_success()`
abbrev pub is_success : ℕ → Bool
is_success status = leb 200 status && leb status 299

-- What `GET {url}/health` comes to: a status, or a network error with its reason.
pub data Probe : Type 0 where
  answered : ℕ → Probe
  unreachable : Str → Probe

module _ {F : Type 0} ⦃fl : Float F⦄ where
  -- `if !fail2ban.is_banned(key) { fail2ban.record_failure_with_code(key, status) }`; 0 is the
  -- code of `record_failure`.
  unfoldable pub blame : Fail2ban F → Str → ℕ → ℕ → Fail2ban F
  blame fb key status now =
      let (banned, fb') = is_banned fb key now in
      if banned then fb' else (record_failure_with_code fb' key status now).1

  -- The body of the inner loop of `check_all_endpoints`.
  unfoldable pub check_endpoint :
      Probe → EndpointConfig F → Fail2ban F → HealthStore → ℕ → Fail2ban F × HealthStore
  unfolding blame
  check_endpoint (unreachable reason) ep fb store now =
      (blame fb (endpoint_key ep) 0 now, set_unhealthy store (endpoint_key ep) reason now)
  check_endpoint (answered status) ep fb store now =
      let (banned, fb') = is_banned fb (endpoint_key ep) now in
      let spared = if banned then reset fb' (endpoint_key ep) else fb' in
      if is_success status then (spared, set_healthy store (endpoint_key ep) now) else (
        blame fb (endpoint_key ep) status now,
        set_unhealthy store (endpoint_key ep) (bytes "HTTP " ++ to_string status) now,
      )

  -- Its loop over the endpoints of a model. `world` gives the time and the answer of a probe.
  unfoldable pub check_endpoints :
      (EndpointConfig F → ℕ × Probe)
      → List (EndpointConfig F)
      → Fail2ban F
      → HealthStore
      → Fail2ban F × HealthStore
  check_endpoints world [] fb store = (fb, store)
  check_endpoints world (ep ∷ eps) fb store =
      let (now, probe) = world ep in
      let (fb', store') = check_endpoint probe ep fb store now in
      check_endpoints world eps fb' store'

  -- Its loop over the models.
  unfoldable pub check_models :
      (EndpointConfig F → ℕ × Probe)
      → List (ModelConfig F)
      → Fail2ban F
      → HealthStore
      → Fail2ban F × HealthStore
  check_models world [] fb store = (fb, store)
  check_models world (m ∷ ms) fb store =
      let (fb', store') = check_endpoints world m.endpoints fb store in
      check_models world ms fb' store'

  -- `check_all_endpoints`
  unfoldable pub check_all_endpoints :
      (EndpointConfig F → ℕ × Probe)
      → AppConfig F
      → Fail2ban F
      → HealthStore
      → Fail2ban F × HealthStore
  unfolding check_models
  check_all_endpoints world cfg fb store = check_models world cfg.models fb store

  -- The loop of `start_background_health_checker`, for some rounds: the configuration that each one
  -- reads, and what its probes answer.
  unfoldable pub check_rounds :
      List (AppConfig F × (EndpointConfig F → ℕ × Probe))
      → Fail2ban F
      → HealthStore
      → Fail2ban F × HealthStore
  unfolding check_all_endpoints
  check_rounds [] fb store = (fb, store)
  check_rounds ((cfg, world) ∷ rounds) fb store =
      let (fb', store') = check_all_endpoints world cfg fb store in check_rounds rounds fb' store'

  unfoldable pub start_background_health_checker :
      ℕ
      → List (AppConfig F × (EndpointConfig F → ℕ × Probe))
      → Fail2ban F
      → HealthStore
      → Fail2ban F × HealthStore
  unfolding check_rounds
  start_background_health_checker interval_secs rounds fb store =
      if interval_secs == 0 then (fb, store) else check_rounds rounds fb store
