-- ===== src/Dashboard/Page.antt =====
-- src/health/dashboard.rs: the page of GET /vhealth. `percent a b` prints the rounded `f64` of
-- a / b * 100, and `mask` is `mask_endpoint_url`.
pub mod Agree
use rust_ai_router.Base.{
  ℕ, suc, ◌+◌, ◌-◌, ◌%◌, ◌==◌, u64_mod, Bool, true, false, not, Option, none, some, List, [], ◌∷◌,
  ◌++◌, Str, bytes, length, is_empty, to_string, trim_start_matches, map, map_or, map_opt, get_or,
  ltb, as_secs, if◌then◌else◌,
}
use rust_ai_router.Config.{AppConfig, ModelConfig, EndpointConfig}
use rust_ai_router.Fail2ban.{is_banned, ban_reason, banned_count}
use rust_ai_router.Health.{health_of}
use rust_ai_router.Keys.{endpoint_key}
use rust_ai_router.Keys.Urls.{join}
use rust_ai_router.Proxy.State.{AppState, with_fail2ban}

pub data EndpointStatus : Type 0 where
  banned down up : EndpointStatus

-- A row of the table.
pub record PageRow : Type 0 where
  pub model : Str
  pub index : ℕ
  pub url : Str
  pub status : EndpointStatus
  pub reason : Str
  pub requests : ℕ
  pub errors : ℕ
  pub success_rate : Str
  pub latency_ms : ℕ
  pub last_check_secs : ℕ
  pub rpm : ℕ
  pub tpm : ℕ

abbrev pub status_of : Bool → Bool → EndpointStatus
status_of true healthy = banned
status_of false false = down
status_of false true = up

-- What `ban_reason` says of an error code.
abbrev pub reason_text : ℕ → Str
reason_text code = if code == 0 then bytes "network error" else bytes "HTTP " ++ to_string code

-- The difference wraps.
unfoldable pub success_rate : (ℕ → ℕ → Str) → ℕ → ℕ → Str
success_rate percent requests errors =
    if ltb 0 requests
    then percent ((requests + u64_mod - errors) % u64_mod) requests
    else bytes "100"

abbrev pub color_of : EndpointStatus → Str
color_of banned = bytes "#f44336"
color_of down = bytes "#ff9800"
color_of up = bytes "#4caf50"

abbrev pub word_of : EndpointStatus → Str
word_of banned = bytes "BANNED"
word_of down = bytes "DOWN"
word_of up = bytes "UP"

module _ {F G R : Type 0} where
  unfoldable pub page_row :
      (Str → Str)
      → (ℕ → ℕ → Str)
      → Str
      → ℕ
      → EndpointConfig F
      → ℕ
      → AppState F G R
      → PageRow × AppState F G R
  unfolding is_banned ban_reason endpoint_key success_rate to_string
  page_row mask percent model index ep now app =
      let key = endpoint_key ep in
      let (is_out, fb) = is_banned app.limits.fail2ban key now in
      let health = health_of app.health_store key in
      let healthy = map_or true (λ h. h.healthy) health in
      let requests = map_or 0 (λ h. h.request_count) health in
      let errors = map_or 0 (λ h. h.error_count) health in
      (
        record {
          model = model;
          index = index;
          url = mask ep.url;
          status = status_of is_out healthy;
          reason =
              if is_out
              then map_or [] reason_text (ban_reason fb key now)
              else if not healthy
              then map_or [] (λ h. h.last_error) health
              else [];
          requests = requests;
          errors = errors;
          success_rate = success_rate percent requests errors;
          latency_ms = map_or 0 (λ h. h.last_latency_ms) health;
          last_check_secs = map_or 9999 (λ h. as_secs (now - h.last_check)) health;
          rpm = map_or 0 (λ l. l.rpm) ep.limits;
          tpm = map_or 0 (λ l. l.tpm) ep.limits;
        },
        with_fail2ban app fb,
      )

  unfoldable pub rows_of_endpoints :
      (Str → Str)
      → (ℕ → ℕ → Str)
      → Str
      → ℕ
      → List (EndpointConfig F)
      → ℕ
      → AppState F G R
      → List PageRow × AppState F G R
  unfolding page_row
  rows_of_endpoints mask percent model index [] now app = ([], app)
  rows_of_endpoints mask percent model index (ep ∷ eps) now app =
      let (one, app') = page_row mask percent model index ep now app in
      let (rest, app'') = rows_of_endpoints mask percent model (suc index) eps now app' in
      (one ∷ rest, app'')

  unfoldable pub rows_of_models :
      (Str → Str)
      → (ℕ → ℕ → Str)
      → List (ModelConfig F)
      → ℕ
      → AppState F G R
      → List PageRow × AppState F G R
  unfolding rows_of_endpoints
  rows_of_models mask percent [] now app = ([], app)
  rows_of_models mask percent (m ∷ ms) now app =
      let (some_of, app') = rows_of_endpoints mask percent m.name 0 m.endpoints now app in
      let (rest, app'') = rows_of_models mask percent ms now app' in (some_of ++ rest, app'')

-- A cell, on a line of its own.
abbrev cell : Str → Str
cell text = bytes "\n                    <td>" ++ text ++ bytes "</td>"

unfoldable pub row_text : PageRow → Str
unfolding to_string
row_text row =
    bytes "<tr>"
    ++ cell row.model
    ++ cell (to_string row.index)
    ++ cell row.url
    ++ bytes "\n                    <td style='color:"
    ++ color_of row.status
    ++ bytes "; font-weight:bold'>"
    ++ word_of row.status
    ++ bytes "</td>"
    ++ cell row.reason
    ++ cell (to_string row.requests)
    ++ cell (to_string row.errors)
    ++ cell (row.success_rate ++ bytes "%")
    ++ cell (to_string row.latency_ms ++ bytes " ms")
    ++ cell (to_string row.last_check_secs ++ bytes " s")
    ++ cell (to_string row.rpm)
    ++ cell (to_string row.tpm)
    ++ bytes "\n                </tr>"

unfoldable pub rows_text : List PageRow → Str
unfolding row_text
rows_text [] = []
rows_text (row ∷ rows) = row_text row ++ rows_text rows

unfoldable pub count_endpoints : {F : Type 0} → List (ModelConfig F) → ℕ
count_endpoints [] = 0
count_endpoints (m ∷ ms) = length m.endpoints + count_endpoints ms

-- The two symbols of the page that are not ASCII.
abbrev arrows : Str
arrows = 240 ∷ 159 ∷ 148 ∷ 132 ∷ []

abbrev dot : Str
dot = 226 ∷ 151 ∷ 143 ∷ []

-- `base_prefix`
unfoldable pub page_prefix : Str → Str
unfolding trim_start_matches
page_prefix base_path = if is_empty base_path then [] else b'/' ∷ trim_start_matches b'/' base_path

unfoldable pub page_head : List Str
page_head =
    (bytes "<!DOCTYPE html>")
    ∷ (bytes "<html>")
    ∷ (bytes "<head>")
    ∷ (bytes "    <title>OpenAI Router - Health Dashboard</title>")
    ∷ (bytes "    <meta charset=\"utf-8\">")
    ∷ (bytes "    <meta http-equiv=\"refresh\" content=\"10\">")
    ∷ (bytes "    <style>")
    ∷ (bytes
        "        body { font-family: system-ui, sans-serif; background: #1a1a2e; color: #e0e0e0; margin: 0; padding: 20px; }")
    ∷ (bytes "        h1 { color: #7c4dff; }")
    ∷ (bytes
        "        table { width: 100%; border-collapse: collapse; margin-top: 20px; font-size: 0.9em; }")
    ∷ (bytes "        th { background: #16213e; padding: 10px; text-align: left; }")
    ∷ (bytes "        td { padding: 8px; border-bottom: 1px solid #333; }")
    ∷ (bytes "        tr:hover { background: #16213e; }")
    ∷ (bytes "        .summary { display: flex; gap: 15px; margin: 20px 0; flex-wrap: wrap; }")
    ∷ (bytes
        "        .card { background: #16213e; padding: 12px 20px; border-radius: 8px; min-width: 120px; }")
    ∷ (bytes "        .card .value { font-size: 1.8em; font-weight: bold; color: #7c4dff; }")
    ∷ (bytes "        .card .label { font-size: 0.85em; color: #aaa; }")
    ∷ (bytes "        .legend { margin-top: 10px; font-size: 0.9em; color: #888; }")
    ∷ (bytes "        .legend span { margin-right: 15px; }")
    ∷ (bytes "    </style>")
    ∷ (bytes "</head>")
    ∷ []

module _ {F G R : Type 0} where
  unfoldable pub page_body : AppConfig F → Str → Str → ℕ → AppState F G R → List Str
  unfolding to_string count_endpoints
  page_body cfg prefix rows banned_endpoints app =
      let total_endpoints = count_endpoints cfg.models in
      (bytes "<body>")
      ∷ (bytes "    <h1>" ++ arrows ++ bytes " OpenAI Router</h1>")
      ∷ (bytes "    <div class=\"summary\">")
      ∷ (bytes "        <div class=\"card\"><div class=\"label\">Models</div><div class=\"value\">"
          ++ to_string (length cfg.models)
          ++ bytes "</div></div>")
      ∷ (bytes
            "        <div class=\"card\"><div class=\"label\">Endpoints</div><div class=\"value\">"
          ++ to_string total_endpoints
          ++ bytes "</div></div>")
      ∷ (bytes "        <div class=\"card\"><div class=\"label\">Tokens</div><div class=\"value\">"
          ++ to_string (length cfg.tokens)
          ++ bytes "</div></div>")
      ∷ (bytes "        <div class=\"card\"><div class=\"label\">Teams</div><div class=\"value\">"
          ++ to_string (length cfg.teams)
          ++ bytes "</div></div>")
      ∷ (bytes
            "        <div class=\"card\"><div class=\"label\">Total Requests</div><div class=\"value\">"
          ++ to_string app.health_store.total_requests
          ++ bytes "</div></div>")
      ∷ (bytes
            "        <div class=\"card\"><div class=\"label\">Total Errors</div><div class=\"value\" style=\"color:#f44336\">"
          ++ to_string app.health_store.total_errors
          ++ bytes "</div></div>")
      ∷ (bytes
            "        <div class=\"card\"><div class=\"label\">Banned</div><div class=\"value\" style=\"color:#ff9800\">"
          ++ to_string banned_endpoints
          ++ bytes "</div></div>")
      ∷ (bytes "    </div>")
      ∷ (bytes "    <div class=\"legend\">")
      ∷ (bytes "        <span style='color:#4caf50'>" ++ dot ++ bytes " UP</span>")
      ∷ (bytes "        <span style='color:#ff9800'>" ++ dot ++ bytes " DOWN</span>")
      ∷ (bytes "        <span style='color:#f44336'>" ++ dot ++ bytes " BANNED</span>")
      ∷ (bytes "    </div>")
      ∷ (bytes "    <table>")
      ∷ (bytes "        <tr>")
      ∷ (bytes "            <th>Model</th>")
      ∷ (bytes "            <th>EP #</th>")
      ∷ (bytes "            <th>URL</th>")
      ∷ (bytes "            <th>Status</th>")
      ∷ (bytes "            <th>Reason</th>")
      ∷ (bytes "            <th>Reqs</th>")
      ∷ (bytes "            <th>Errs</th>")
      ∷ (bytes "            <th>Success</th>")
      ∷ (bytes "            <th>Latency</th>")
      ∷ (bytes "            <th>Check</th>")
      ∷ (bytes "            <th>RPM</th>")
      ∷ (bytes "            <th>TPM</th>")
      ∷ (bytes "        </tr>")
      ∷ (bytes "        " ++ rows)
      ∷ (bytes "    </table>")
      ∷ (bytes "    <p style=\"margin-top:20px; color:#666\">Auto-refresh: 10s | <a href=\""
          ++ prefix
          ++ bytes "/health\" style=\"color:#7c4dff\">JSON API</a> | <a href=\""
          ++ prefix
          ++ bytes "/metrics\" style=\"color:#7c4dff\">Prometheus</a></p>")
      ∷ (bytes "</body>")
      ∷ (bytes "</html>")
      ∷ []

  -- `health_dashboard`
  unfoldable pub health_dashboard :
      (Str → Str) → (ℕ → ℕ → Str) → AppConfig F → Str → ℕ → AppState F G R → Str × AppState F G R
  unfolding rows_of_models rows_text banned_count page_prefix page_head page_body join
  health_dashboard mask percent cfg base_path now app =
      let (rows, app') = rows_of_models mask percent cfg.models now app in
      (
        join 10 (
            page_head
            ++ page_body cfg (page_prefix base_path) (rows_text rows)
                (banned_count app'.limits.fail2ban.states now) app'),
        app',
      )
