-- ===== src/Proxy/Generic/Refusal.antt =====
-- src/proxy/handler.rs: what a request that `proxy_generic` refuses leaves behind.
use rust_ai_router.Auth.{AuthContext}
use rust_ai_router.Base.{
  ℕ, ◌≡◌, inl, inr, refl, sym, ap, ◌∙◌, Bool, true, false, Str, bytes, starts_with, Bool-cases,
  Option-cases, arith, Float,
}
use rust_ai_router.Config.{AppConfig, canonical_model_name, token_has_model_access}
use rust_ai_router.Json.{Json}
use rust_ai_router.Proxy.Body.{strip_base_path}
use rust_ai_router.Proxy.Chat.{HttpRound}
use rust_ai_router.Proxy.Generic.{
  GenericRequest, GenericReply, unauthorized, not_found, bad_request, body_read_failed, no_models,
  upstream_error, limited, forbidden, no_endpoint, relayed, generic_prepared, extract_body, relay,
  dispatch, proxy_generic,
}
use rust_ai_router.Proxy.Generic.Access.{Extracted-cases}
use rust_ai_router.Proxy.Limits.{
  check_all_rate_limits, check_team_limits, check_token_limits, shared_limit, local_limit,
}
use rust_ai_router.Proxy.State.{AppState}
use rust_ai_router.RateLimit.Store.{Governor}
use rust_ai_router.Router.Balancer.{SelectedEndpoint, select_endpoint}
use rust_ai_router.Sync.{Redis}

module _ {F : Type 0} where
  -- The answer of an endpoint, or the report that there is none.
  unfoldable pub is_upstream : GenericReply F → Bool
  is_upstream (relayed ep status) = true
  is_upstream upstream_error = true
  is_upstream unauthorized = false
  is_upstream not_found = false
  is_upstream bad_request = false
  is_upstream body_read_failed = false
  is_upstream no_models = false
  is_upstream (limited who rl) = false
  is_upstream (forbidden model) = false
  is_upstream (no_endpoint model) = false

module _ {F G R : Type 0} where
  -- Nothing has been sent, and nothing of an endpoint or a session has been recorded.
  abbrev pub Unrecorded : AppState F G R → AppState F G R → Type 0
  Unrecorded after before =
      (after.sent ≡ before.sent)
      × (after.limits.fail2ban ≡ before.limits.fail2ban)
      × (after.health_store ≡ before.health_store)
      × (after.session ≡ before.session)

module _ {F G R : Type 0} ⦃fl : Float F⦄ ⦃gov : Governor G⦄ ⦃redis : Redis R⦄ where
  check_all_rate_limits-Unrecorded :
      (cfg : AppConfig F) (app : AppState F G R) (team token_key : Str) (rpm tpm now unix : ℕ)
      → Unrecorded (check_all_rate_limits cfg app team token_key rpm tpm now unix).1 app
  unfolding check_all_rate_limits check_team_limits check_token_limits shared_limit local_limit
  check_all_rate_limits-Unrecorded cfg app team token_key rpm tpm now unix =
      (grind arith, grind arith, grind arith, grind arith)

module _ (V : Type 0) {F G R : Type 0} ⦃json : Json V⦄ ⦃fl : Float F⦄ ⦃gov : Governor G⦄
    ⦃redis : Redis R⦄ where
  relay-is_upstream :
      (cfg : AppConfig F) (ctx : AuthContext F) (model : Str) (is_stream : Bool)
      (ep : SelectedEndpoint F) (r : HttpRound) (app : AppState F G R)
      → is_upstream (relay V cfg (generic_prepared ctx model is_stream) ep r app).0 ≡ true
  unfolding relay is_upstream
  relay-is_upstream cfg ctx model is_stream ep r app = elim (Option-cases r.answer) [
    | inl e ↦ rw (relay, e) refl
    | inr (a, e) ↦ rw (relay, e) refl
  ]

  dispatch-Unrecorded :
      (cfg : AppConfig F) (ctx : AuthContext F) (model_name : Str) (is_stream : Bool)
      (world : SelectedEndpoint F → HttpRound) (app : AppState F G R)
      → is_upstream (dispatch V cfg ctx model_name is_stream world app).0 ≡ false
      → Unrecorded (dispatch V cfg ctx model_name is_stream world app).1 app
  unfolding dispatch
  dispatch-Unrecorded cfg ctx model_name is_stream world app refusal =
      let model = canonical_model_name cfg model_name in
      let routed = record app { router = (select_endpoint cfg app.router model).1 } in
      elim (Bool-cases (token_has_model_access cfg ctx.token_key model)) [
        | inr denied ↦ rw (dispatch, denied) (refl, refl, refl, refl)
        | inl granted ↦ elim (Option-cases (select_endpoint cfg app.router model).0) [
          | inl none_left ↦ rw (dispatch, granted, none_left) (refl, refl, refl, refl)
          | inr (s, chosen) ↦
              let asked : is_upstream (dispatch V cfg ctx model_name is_stream world app).0 ≡ true =
                rw (dispatch, granted, chosen)
                  (relay-is_upstream cfg ctx model is_stream s (world s) routed) in
              absurd (ground (arith, asked, refusal))
        ]
      ]

  -- Where `proxy_generic` answers by itself, no request has been sent, and the ban list, the health
  -- store and the sessions are as before. Only limiters, counters and statistics may have changed.
  pub proxy_generic-refusal :
      (cfg : AppConfig F) (base_path : Str) (req : GenericRequest F)
      (world : SelectedEndpoint F → HttpRound) (app : AppState F G R)
      → is_upstream (proxy_generic V cfg base_path req world app).0 ≡ false
      → Unrecorded (proxy_generic V cfg base_path req world app).1 app
  unfolding proxy_generic
  proxy_generic-refusal cfg base_path req world app refusal = elim (Option-cases req.auth) [
    | inl e ↦ rw (proxy_generic, e) (refl, refl, refl, refl)
    | inr (ctx, known) ↦
        let req_path = strip_base_path req.path_and_query base_path in
        let limits =
          check_all_rate_limits cfg app ctx.team ctx.token_key ctx.rpm ctx.tpm req.now req.unix in
        let kept =
          check_all_rate_limits-Unrecorded cfg app ctx.team ctx.token_key ctx.rpm ctx.tpm req.now
            req.unix in
        elim (Bool-cases (starts_with req_path (bytes "/v1/"))) [
          | inr outside ↦ rw (proxy_generic, known, outside) (refl, refl, refl, refl)
          | inl below ↦ elim (Option-cases limits.0) [
            | inr (rl, over) ↦ rw (proxy_generic, known, below, over) kept
            | inl within ↦
                elim (Extracted-cases (extract_body V cfg req_path req.content_type req.body)) [
                  | inl (reply, e) ↦ rw (proxy_generic, known, below, within, e) kept
                  | inr (body, model_name, is_stream, e) ↦
                      let opened : proxy_generic V cfg base_path req world app
                          ≡ dispatch V cfg ctx model_name is_stream world limits.1 =
                        rw (proxy_generic, known, below, within, e) refl in
                      let answered : is_upstream
                            (dispatch V cfg ctx model_name is_stream world limits.1).0
                          ≡ false =
                        ap (λ t. is_upstream t.0) (sym opened) ∙ refusal in
                      let (sent, fail2ban, health, session) =
                        dispatch-Unrecorded cfg ctx model_name is_stream world limits.1 answered in
                      rw opened
                        (sent ∙ kept.0, fail2ban ∙ kept.1, health ∙ kept.2, session ∙ kept.3)
                ]
          ]
        ]
  ]
