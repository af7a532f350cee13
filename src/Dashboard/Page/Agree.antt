-- ===== src/Dashboard/Page/Agree.antt =====
-- src/health/dashboard.rs: the page of GET /vhealth against the report of GET /health.
use rust_ai_router.Base.{ℕ, suc, ◌≡◌, refl, ap, List, [], ◌∷◌, ◌++◌, Str, map}
use rust_ai_router.Config.{AppConfig, ModelConfig, EndpointConfig}
use rust_ai_router.Dashboard.{
  EndpointHealthReport, report_health, report_endpoints, report_models, health_json,
}
use rust_ai_router.Dashboard.Page.{
  EndpointStatus, PageRow, status_of, page_row, rows_of_endpoints, rows_of_models, rows_text,
  health_dashboard, page_head, page_body, page_prefix,
}
use rust_ai_router.Proxy.State.{AppState}
use rust_ai_router.Fail2ban.{banned_count}
use rust_ai_router.Keys.Urls.{join}
use mathlib.Core.List.{map-append}

-- What both say of an endpoint.
pub record Said : Type 0 where
  pub model : Str
  pub index : ℕ
  pub url : Str
  pub status : EndpointStatus
  pub requests : ℕ
  pub errors : ℕ
  pub latency_ms : ℕ
  pub rpm : ℕ
  pub tpm : ℕ

abbrev pub of_row : PageRow → Said
of_row row = record {
  model = row.model;
  index = row.index;
  url = row.url;
  status = row.status;
  requests = row.requests;
  errors = row.errors;
  latency_ms = row.latency_ms;
  rpm = row.rpm;
  tpm = row.tpm;
}

abbrev pub of_report : EndpointHealthReport → Said
of_report report = record {
  model = report.model;
  index = report.endpoint_index;
  url = report.url;
  status = status_of report.banned report.healthy;
  requests = report.requests;
  errors = report.errors;
  latency_ms = report.last_latency_ms;
  rpm = report.rpm_limit;
  tpm = report.tpm_limit;
}

module _ {F G R : Type 0} (mask : Str → Str) (percent : ℕ → ℕ → Str) where
  rows_of_endpoints-report_endpoints :
      (model : Str) (index : ℕ) (eps : List (EndpointConfig F)) (now : ℕ) (app : AppState F G R)
      → (map of_row (rows_of_endpoints mask percent model index eps now app).0
          ≡ map of_report (report_endpoints mask model index eps now app).0)
        × ((rows_of_endpoints mask percent model index eps now app).1
            ≡ (report_endpoints mask model index eps now app).1)
  unfolding rows_of_endpoints report_endpoints page_row report_health
  rows_of_endpoints-report_endpoints model index [] now app = (refl, refl)
  rows_of_endpoints-report_endpoints model index (ep ∷ eps) now app =
      let rest =
        rows_of_endpoints-report_endpoints model (suc index) eps now
          (report_health mask model index ep now app).1 in
      (ap (λ l. of_report (report_health mask model index ep now app).0 ∷ l) rest.0, rest.1)

  rows_of_models-report_models :
      (ms : List (ModelConfig F)) (now : ℕ) (app : AppState F G R)
      → (map of_row (rows_of_models mask percent ms now app).0
          ≡ map of_report (report_models mask ms now app).0)
        × ((rows_of_models mask percent ms now app).1 ≡ (report_models mask ms now app).1)
  unfolding rows_of_models report_models
  rows_of_models-report_models [] now app = (refl, refl)
  rows_of_models-report_models (m ∷ ms) now app =
      let here = rows_of_endpoints-report_endpoints m.name 0 m.endpoints now app in
      let rest =
        rows_of_models-report_models ms now
          (report_endpoints mask m.name 0 m.endpoints now app).1 in
      (simp (map-append, here.0, here.1, rest.0), rw here.1 rest.1)

  -- The page of GET /vhealth has a row for each endpoint in the report of GET /health, in the same
  -- order, that says the same of its model, place, address, status, counters, latency and limits; and
  -- both leave the program in the same state.
  pub health_dashboard-health_json :
      (cfg : AppConfig F) (base_path : Str) (now : ℕ) (app : AppState F G R)
      → (rows : List PageRow) × ((health_dashboard mask percent cfg base_path now app).0
          ≡ join 10 (
              page_head
              ++ page_body cfg
                  (page_prefix base_path)
                  (rows_text rows)
                  (banned_count (health_json mask cfg now app).1.limits.fail2ban.states now)
                  (health_json mask cfg now app).1))
        × (map of_row rows ≡ map of_report (health_json mask cfg now app).0.endpoints)
        × ((health_dashboard mask percent cfg base_path now app).1
            ≡ (health_json mask cfg now app).1)
  unfolding health_dashboard health_json
  health_dashboard-health_json cfg base_path now app =
      let rows = (rows_of_models mask percent cfg.models now app).0 in
      let agree = rows_of_models-report_models cfg.models now app in
      (
        rows,
        ap
            (λ state. join 10 (
              page_head
              ++ page_body cfg (page_prefix base_path) (rows_text rows)
                  (banned_count state.limits.fail2ban.states now) state))
            agree.1,
        agree.0,
        agree.1,
      )
