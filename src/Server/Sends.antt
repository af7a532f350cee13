-- ===== src/Server/Sends.antt =====
-- src/main.rs: which requests reach an endpoint, whatever the path.
use rust_ai_router.Auth.{AuthContext, auth_middleware}
use rust_ai_router.Base.{
  ℕ, suc, ◌≡◌, ◌⊎◌, inl, inr, refl, ◌∙◌, true, false, Option, none, some, List, [], ◌∷◌, Str, bytes,
  contains, keep, map_or, ltb, Option-cases, Bool-cases, Float, if◌then◌else◌,
}
use rust_ai_router.Config.{
  AppConfig, ModelConfig, EndpointConfig, token_has_model_access, canonical_model_name,
}
use rust_ai_router.Dashboard.{
  report_health, report_endpoints, report_models, report_stats, stats_of_endpoints, stats_of_models,
  stats_json, remaining_of,
}
use rust_ai_router.Dashboard.Page.Agree.{health_dashboard-health_json}
use rust_ai_router.Json.{Json}
use rust_ai_router.Keys.Urls.{mask_endpoint_url}
use rust_ai_router.Models.{within_limits}
use rust_ai_router.Proxy.Chat.{HttpRequest, chat_handler, chat_request, round_of, proxy_request}
use rust_ai_router.Proxy.Generic.{GenericRequest}
use rust_ai_router.Proxy.Generic.Access.{proxy_generic-sends}
use rust_ai_router.Proxy.Handler.Access.{
  Sent, nothing, one_more, OfModel, proxy_handler-sends, sent-check_all_rate_limits,
}
use rust_ai_router.Proxy.Limits.{check_all_rate_limits, team_limits_of}
use rust_ai_router.Keys.{team_limit_key}
use rust_ai_router.Proxy.State.{AppState}
use rust_ai_router.RateLimit.Store.{Governor}
use rust_ai_router.Router.Balancer.{SelectedEndpoint}
use rust_ai_router.Server.{
  Method, Route, chat_route, models_route, health_route, page_route, stats_route, metrics_route,
  tags_route, version_route, Dispatched, handled, fallback, method_not_allowed, ServerRequest,
  World, handle_route, handle, routes, serve,
}
use rust_ai_router.Sync.{Redis}

-- The reports send nothing.
module _ {F G R : Type 0} where
  sent-report_endpoints :
      (mask : Str → Str) (model : Str) (index : ℕ) (eps : List (EndpointConfig F)) (now : ℕ)
      (app : AppState F G R)
      → (report_endpoints mask model index eps now app).1.sent ≡ app.sent
  unfolding report_endpoints report_health
  sent-report_endpoints mask model index [] now app = refl
  sent-report_endpoints mask model index (ep ∷ eps) now app =
      sent-report_endpoints mask model (suc index) eps now
        (report_health mask model index ep now app).1

  sent-report_models :
      (mask : Str → Str) (ms : List (ModelConfig F)) (now : ℕ) (app : AppState F G R)
      → (report_models mask ms now app).1.sent ≡ app.sent
  unfolding report_models
  sent-report_models mask [] now app = refl
  sent-report_models mask (m ∷ ms) now app =
      sent-report_models mask ms now (report_endpoints mask m.name 0 m.endpoints now app).1
      ∙ sent-report_endpoints mask m.name 0 m.endpoints now app

module _ {F G R : Type 0} ⦃fl : Float F⦄ ⦃gov : Governor G⦄ where
  sent-remaining_of :
      (app : AppState F G R) (key : Str) (tpm now unix : ℕ)
      → (remaining_of app key tpm now unix).1.sent ≡ app.sent
  unfolding remaining_of
  sent-remaining_of app key tpm now unix = elim (Bool-cases (ltb 0 tpm)) [
    | inl e ↦ rw e refl
    | inr e ↦ rw e refl
  ]

  sent-stats_of_endpoints :
      (mask : Str → Str) (model : Str) (eps : List (EndpointConfig F)) (now unix : ℕ)
      (app : AppState F G R)
      → (stats_of_endpoints mask model eps now unix app).1.sent ≡ app.sent
  unfolding stats_of_endpoints report_stats
  sent-stats_of_endpoints mask model [] now unix app = refl
  sent-stats_of_endpoints mask model (ep ∷ eps) now unix app =
      sent-stats_of_endpoints mask model eps now unix (report_stats mask model ep now unix app).1
      ∙ sent-remaining_of _ _ _ now unix

  sent-stats_of_models :
      (mask : Str → Str) (ms : List (ModelConfig F)) (now unix : ℕ) (app : AppState F G R)
      → (stats_of_models mask ms now unix app).1.sent ≡ app.sent
  unfolding stats_of_models
  sent-stats_of_models mask [] now unix app = refl
  sent-stats_of_models mask (m ∷ ms) now unix app =
      sent-stats_of_models mask ms now unix
        (stats_of_endpoints mask m.name m.endpoints now unix app).1
      ∙ sent-stats_of_endpoints mask m.name m.endpoints now unix app

  sent-stats_json :
      (mask : Str → Str) (cfg : AppConfig F) (ctx : AuthContext F) (now unix : ℕ)
      (app : AppState F G R)
      → (stats_json mask cfg ctx now unix app).1.sent ≡ app.sent
  unfolding stats_json
  sent-stats_json mask cfg ctx now unix app =
      let team_tpm = map_or 0 (λ l. l.tpm) (team_limits_of cfg ctx.team) in
      let app1 = (remaining_of app ctx.token_key ctx.tpm now unix).1 in
      let app2 = (remaining_of app1 (team_limit_key ctx.team) team_tpm now unix).1 in
      let shown =
        if contains ctx.models (bytes "*")
        then cfg.models
        else keep (λ m. token_has_model_access cfg ctx.token_key m.name) cfg.models in
      sent-stats_of_models mask shown now unix app2
      ∙ sent-remaining_of app1 (team_limit_key ctx.team) team_tpm now unix
      ∙ sent-remaining_of app ctx.token_key ctx.tpm now unix

module _ {V F G R : Type 0} ⦃json : Json V⦄ ⦃fl : Float F⦄ ⦃gov : Governor G⦄
    ⦃redis : Redis R⦄ where
  sent-within_limits :
      (cfg : AppConfig F) (auth : Option (AuthContext F)) (list : AuthContext F → V) (now unix : ℕ)
      (app : AppState F G R)
      → (within_limits cfg auth list now unix app).1.sent ≡ app.sent
  unfolding within_limits
  sent-within_limits cfg none list now unix app = refl
  sent-within_limits cfg (some ctx) list now unix app =
      let kept =
        sent-check_all_rate_limits cfg app ctx.team ctx.token_key ctx.rpm ctx.tpm now unix in
      elim (Option-cases
        (check_all_rate_limits cfg app ctx.team ctx.token_key ctx.rpm ctx.tpm now unix).0) [
          | inl e ↦ rw (within_limits, e) kept
          | inr (rl, e) ↦ rw (within_limits, e) kept
        ]

-- What a handler may have sent: nothing, or requests that the token of the caller allows.
module _ {F : Type 0} ⦃fl : Float F⦄ where
  abbrev Allowed :
      AppConfig F
      → Option (AuthContext F)
      → List (SelectedEndpoint F)
      → List (SelectedEndpoint F)
      → Type 0
  Allowed cfg auth before after =
      (after ≡ before)
      ⊎ ((ctx : AuthContext F) × (model : Str) × (auth ≡ some ctx)
          × (token_has_model_access cfg ctx.token_key model ≡ true)
          × Sent (OfModel cfg model) before after)

module _ (V : Type 0) {F G R : Type 0} ⦃json : Json V⦄ ⦃fl : Float F⦄ ⦃gov : Governor G⦄
    ⦃redis : Redis R⦄ where
  handle_route-Allowed :
      (cfg : AppConfig F) (base_path : Str) (world : World F) (req : ServerRequest)
      (auth : Option (AuthContext F)) (app : AppState F G R) (route : Route)
      → Allowed cfg auth app.sent
          (handle_route {V = V} cfg base_path world req auth app route).1.sent
  unfolding handle_route chat_handler
  handle_route-Allowed cfg base_path world req auth app chat_route =
      let r : HttpRequest F = record {
        auth = auth;
        path = req.path;
        body = req.body;
        now = req.now;
        unix = req.unix;
      } in
      let is_stream = map_or false (λ c. c.is_stream) (chat_request V cfg base_path r) in
      elim (proxy_handler-sends cfg (proxy_request V cfg base_path r)
        (λ n ep. round_of V is_stream (world.answers n ep)) world.fuel app) [
          | inl e ↦ inl e
          | inr (ctx, body, known, is_body, granted, sent) ↦
              inr (ctx, canonical_model_name cfg body.model_name, known, granted, sent)
        ]
  handle_route-Allowed cfg base_path world req auth app models_route =
      inl (sent-within_limits {V = V} cfg auth _ req.now req.unix app)
  handle_route-Allowed cfg base_path world req auth app tags_route =
      inl (sent-within_limits {V = V} cfg auth _ req.now req.unix app)
  handle_route-Allowed cfg base_path world req auth app health_route =
      inl (sent-report_models (mask_endpoint_url world.parse_url) cfg.models req.now app)
  handle_route-Allowed cfg base_path world req auth app page_route =
      let mask = mask_endpoint_url world.parse_url in
      let same_state =
        (health_dashboard-health_json mask world.percent cfg base_path req.now app).3 in
      inl (rw same_state (sent-report_models mask cfg.models req.now app))
  handle_route-Allowed cfg base_path world req none app stats_route = inl refl
  handle_route-Allowed cfg base_path world req (some ctx) app stats_route =
      inl (sent-stats_json (mask_endpoint_url world.parse_url) cfg ctx req.now req.unix app)
  handle_route-Allowed cfg base_path world req auth app metrics_route = inl refl
  handle_route-Allowed cfg base_path world req auth app version_route = inl refl

  handle-Allowed :
      (cfg : AppConfig F) (base_path : Str) (world : World F) (req : ServerRequest)
      (auth : Option (AuthContext F)) (app : AppState F G R) (to : Dispatched)
      → Allowed cfg auth app.sent (handle {V = V} cfg base_path world req auth app to).1.sent
  unfolding handle
  handle-Allowed cfg base_path world req auth app (handled route) =
      handle_route-Allowed cfg base_path world req auth app route
  handle-Allowed cfg base_path world req auth app method_not_allowed = inl refl
  handle-Allowed cfg base_path world req auth app fallback =
      let r : GenericRequest F = record {
        auth = auth;
        path_and_query = req.path_and_query;
        content_type = req.content_type;
        body = req.body;
        now = req.now;
        unix = req.unix;
      } in
      elim (proxy_generic-sends V cfg base_path r world.answer app) [
        | inl e ↦ inl e
        | inr
              (
                ctx, body, model_name, is_stream, s, known, below, is_body, granted, of_model, sent,
              ) ↦
            inr (
              ctx,
              canonical_model_name cfg model_name,
              known,
              granted,
              rw sent (one_more s app.sent of_model nothing),
            )
      ]

  -- The whole program sends a request to an endpoint only for a caller whom `auth_middleware` knows,
  -- whatever the path, the method and the way in which the handler is found: a response comes
  -- without any request to an endpoint, or the caller's token has access to a model and all requests
  -- go to endpoints of that model.
  pub serve-sends :
      (dispatch : List (Str × Method × Route) → Str → Str → Dispatched) (cfg : AppConfig F)
      (base_path : Str) (world : World F) (req : ServerRequest) (app : AppState F G R)
      → ((serve {V = V} dispatch cfg base_path world req app).1.sent ≡ app.sent)
        ⊎ ((ctx : AuthContext F) × (model : Str) × (auth_middleware cfg req.path req.authorization
              ≡ some ctx)
            × (token_has_model_access cfg ctx.token_key model ≡ true)
            × Sent
                (OfModel cfg model)
                app.sent
                (serve {V = V} dispatch cfg base_path world req app).1.sent)
  unfolding serve
  serve-sends dispatch cfg base_path world req app =
      handle-Allowed cfg base_path world req (auth_middleware cfg req.path req.authorization) app
        (dispatch (routes base_path) req.method req.path)
