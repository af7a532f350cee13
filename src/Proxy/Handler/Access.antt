-- ===== src/Proxy/Handler/Access.antt =====
-- Which requests `proxy_handler` sends on.
use rust_ai_router.Auth.{AuthContext}
use rust_ai_router.Base.{
  ℕ, zero, suc, ◌≡◌, refl, ◌∙◌, ◌⊎◌, inl, inr, true, ◌&&◌, Option, none, some, List, [], ◌∷◌, Str,
  get_elem?, length, map_or, Bool-cases, Option-cases, ltb, ◌==◌, arith, Float,
}
use rust_ai_router.Config.{
  AppConfig, ModelConfig, EndpointConfig, find_model, canonical_model_name, token_has_model_access,
}
use rust_ai_router.Keys.{endpoint_key}
use rust_ai_router.Proxy.Attempt.{Round, Prepared, Turn, attempt}
use rust_ai_router.Proxy.Attempt.Cases.{attempt-again}
use rust_ai_router.Proxy.Attempt.Outbox.{sent-attempt}
use rust_ai_router.Proxy.Handler.{
  ParsedBody, ProxyRequest, is_banned_anywhere, collect_banned, sticky_index, sticky_endpoint,
  initial_endpoint, retry_loop, route, authorised, proxy_handler,
}
use rust_ai_router.Proxy.Handler.Loop.Ends.{Next-cases}
use rust_ai_router.Proxy.Limits.{
  shared_limit, local_limit, check_team_limits, check_token_limits, check_all_rate_limits,
}
use rust_ai_router.Proxy.State.{AppState}
use rust_ai_router.RateLimit.Store.{Governor}
use rust_ai_router.Router.Balancer.{
  SelectedEndpoint, Counters, select_available, build_selected_endpoint,
}
use rust_ai_router.Router.Balancer.Available.{select_available_sound}
use rust_ai_router.Sync.{Redis}

module _ {F : Type 0} where
  -- The outbox after a number of requests that all have the property.
  pub data Sent (Q : SelectedEndpoint F → Type 0) (before : List (SelectedEndpoint F))
      : List (SelectedEndpoint F) → Type 0 where
    nothing : Sent Q before before
    one_more :
        (s : SelectedEndpoint F) (after : List (SelectedEndpoint F))
        → Q s
        → Sent Q before after
        → Sent Q before (s ∷ after)

  pub unsent :
      (Q : SelectedEndpoint F → Type 0) (before after : List (SelectedEndpoint F))
      → after ≡ before
      → Sent Q before after
  unsent Q before after e = rw (e) nothing

  rebase :
      (Q : SelectedEndpoint F → Type 0) (before other after : List (SelectedEndpoint F))
      → other ≡ before
      → Sent Q other after
      → Sent Q before after
  rebase Q before other after e sent = rw (← e) sent

module _ {F : Type 0} ⦃fl : Float F⦄ where
  -- The endpoint is one of the requested model, with its own url and key.
  abbrev pub OfModel : AppConfig F → Str → SelectedEndpoint F → Type 0
  OfModel cfg model s =
      (m : ModelConfig F) × (i : ℕ) × (ep : EndpointConfig F) × (find_model cfg model ≡ some m)
      × (get_elem? m.endpoints i ≡ some ep)
      × (s ≡ build_selected_endpoint ep i (length m.endpoints))

  select_available-OfModel :
      (cfg : AppConfig F) (counters : Counters) (model : Str) (banned tried : List Str)
      (s : SelectedEndpoint F)
      → (select_available cfg counters model banned tried).0 ≡ some s
      → OfModel cfg model s
  select_available-OfModel cfg counters model banned tried s e =
      let (m, known, picks) = select_available_sound cfg counters model banned tried s e in
      (m, s.index, picks.ep, known, picks.found, picks.built)

module _ {F G R : Type 0} ⦃fl : Float F⦄ ⦃gov : Governor G⦄ ⦃redis : Redis R⦄ where
  retry_loop-Sent :
      (cfg : AppConfig F) (p : Prepared) (world : ℕ → SelectedEndpoint F → Round) (fuel n : ℕ)
      (app : AppState F G R) (turn : Turn F) (before : List (SelectedEndpoint F))
      → OfModel cfg p.canonical_model turn.current_endpoint
      → Sent (OfModel cfg p.canonical_model) before app.sent
      → Sent (OfModel cfg p.canonical_model) before (retry_loop cfg p world fuel n app turn).1.sent
  unfolding retry_loop
  retry_loop-Sent cfg p world zero n app turn before at so_far = so_far
  retry_loop-Sent cfg p world (suc fuel) n app turn before at so_far =
      let a = world n turn.current_endpoint in
      let round : Sent (OfModel cfg p.canonical_model) before (attempt cfg p app turn a).1.sent =
        elim (sent-attempt cfg p app turn a) [
          | inl e ↦ rw (e) so_far
          | inr e ↦ rw (e) (one_more turn.current_endpoint app.sent at so_far)
        ] in
      elim (Next-cases (attempt cfg p app turn a).0) [
        | inl (reply, e) ↦ rw (retry_loop, e) round
        | inr (turn', e) ↦
            let chosen = attempt-again cfg p app turn a turn' e in
            rw (retry_loop, e)
              (retry_loop-Sent cfg p world fuel (suc n) _ turn' before
                (select_available-OfModel cfg chosen.1.0 p.canonical_model p.banned_keys _
                  turn'.current_endpoint chosen.1.1)
                round)
      ]

  pub sent-check_all_rate_limits :
      (cfg : AppConfig F) (app : AppState F G R) (team token_key : Str) (rpm tpm now unix : ℕ)
      → (check_all_rate_limits cfg app team token_key rpm tpm now unix).1.sent ≡ app.sent
  unfolding check_all_rate_limits check_team_limits check_token_limits shared_limit local_limit
  sent-check_all_rate_limits cfg app team token_key rpm tpm now unix = grind arith

  sent-is_banned_anywhere :
      (app : AppState F G R) (key : Str) (now : ℕ)
      → (is_banned_anywhere app key now).1.sent ≡ app.sent
  unfolding is_banned_anywhere
  sent-is_banned_anywhere app key now = grind arith

  sent-collect_banned :
      (eps : List (EndpointConfig F)) (banned : List Str) (app : AppState F G R) (now : ℕ)
      → (collect_banned eps banned app now).1.sent ≡ app.sent
  unfolding collect_banned
  sent-collect_banned [] banned app now = refl
  sent-collect_banned (ep ∷ eps) banned app now =
      sent-collect_banned eps _ _ now ∙ sent-is_banned_anywhere app (endpoint_key ep) now

  sent-sticky_endpoint :
      (model : Option (ModelConfig F)) (banned : List Str) (sid : Option Str) (app : AppState F G R)
      (now : ℕ)
      → (sticky_endpoint model banned sid app now).1.sent ≡ app.sent
  unfolding sticky_endpoint sticky_index
  sent-sticky_endpoint model banned none app now = refl
  sent-sticky_endpoint model banned (some sid) app now = grind arith

  sticky_endpoint-OfModel :
      (cfg : AppConfig F) (model : Str) (banned : List Str) (sid : Option Str)
      (app : AppState F G R) (now : ℕ) (s : SelectedEndpoint F)
      → (sticky_endpoint (find_model cfg model) banned sid app now).0 ≡ some s
      → OfModel cfg model s
  unfolding sticky_endpoint
  sticky_endpoint-OfModel cfg model banned none app now s h = absurd (ground arith)
  sticky_endpoint-OfModel cfg model banned (some sid) app now s h =
      elim (Option-cases (sticky_index app sid now).0) [
        | inl e ↦ absurd (ground arith)
        | inr (i, e) ↦ elim (Option-cases (find_model cfg model)) [
          | inl lost ↦ absurd (ground arith)
          | inr (m, known) ↦ elim (Option-cases (get_elem? m.endpoints i)) [
            | inl out ↦ absurd (ground arith)
            | inr (ep, found) ↦ (m, i, ep, known, found, ground arith)
          ]
        ]
      ]

  sent-initial_endpoint :
      (cfg : AppConfig F) (model : Str) (banned : List Str) (sid : Option Str)
      (app : AppState F G R) (now : ℕ)
      → (initial_endpoint cfg model banned sid app now).1.sent ≡ app.sent
  unfolding initial_endpoint
  sent-initial_endpoint cfg model banned sid app now =
      let kept = sent-sticky_endpoint (find_model cfg model) banned sid app now in
      elim (Option-cases (sticky_endpoint (find_model cfg model) banned sid app now).0) [
        | inl e ↦ rw (initial_endpoint, e) kept
        | inr (s, e) ↦ rw (initial_endpoint, e) kept
      ]

  initial_endpoint-OfModel :
      (cfg : AppConfig F) (model : Str) (banned : List Str) (sid : Option Str)
      (app : AppState F G R) (now : ℕ) (s : SelectedEndpoint F)
      → (initial_endpoint cfg model banned sid app now).0 ≡ some s
      → OfModel cfg model s
  unfolding initial_endpoint
  initial_endpoint-OfModel cfg model banned sid app now s h =
      elim (Option-cases (sticky_endpoint (find_model cfg model) banned sid app now).0) [
        | inl e ↦
            select_available-OfModel cfg
              (sticky_endpoint (find_model cfg model) banned sid app now).1.router model banned [] s
              (ground arith)
        | inr (s', e) ↦ sticky_endpoint-OfModel cfg model banned sid app now s (ground arith)
      ]

  route-Sent :
      (cfg : AppConfig F) (ctx : AuthContext F) (body : ParsedBody) (banned : List Str)
      (world : ℕ → SelectedEndpoint F → Round) (fuel now unix : ℕ) (app : AppState F G R)
      → Sent
          (OfModel cfg (canonical_model_name cfg body.model_name))
          app.sent
          (route cfg ctx body banned world fuel now unix app).1.sent
  unfolding route
  route-Sent cfg ctx body banned world fuel now unix app =
      let model = canonical_model_name cfg body.model_name in
      let initial = initial_endpoint cfg model banned body.session_id app now in
      let kept = sent-initial_endpoint cfg model banned body.session_id app now in
      let checked =
        check_all_rate_limits cfg initial.1 ctx.team ctx.token_key ctx.rpm ctx.tpm now unix in
      let spared =
        sent-check_all_rate_limits cfg initial.1 ctx.team ctx.token_key ctx.rpm ctx.tpm now unix in
      elim (Option-cases initial.0) [
        | inl e ↦ rw (route, e) (unsent (OfModel cfg model) app.sent initial.1.sent kept)
        | inr (s, e) ↦ elim (Option-cases checked.0) [
          | inr (rl, refused) ↦
              rw (route, e, refused)
                (unsent (OfModel cfg model) app.sent checked.1.sent (spared ∙ kept))
          | inl free ↦
              rw (route, e, free)
                (retry_loop-Sent cfg _ world fuel 0 checked.1 _ app.sent
                  (initial_endpoint-OfModel cfg model banned body.session_id app now s e)
                  (unsent (OfModel cfg model) app.sent checked.1.sent (spared ∙ kept)))
        ]
      ]

  authorised-Sent :
      (cfg : AppConfig F) (ctx : AuthContext F) (body : ParsedBody)
      (world : ℕ → SelectedEndpoint F → Round) (fuel now unix : ℕ) (app : AppState F G R)
      → token_has_model_access cfg ctx.token_key (canonical_model_name cfg body.model_name) ≡ true
      → Sent
          (OfModel cfg (canonical_model_name cfg body.model_name))
          app.sent
          (authorised cfg ctx body world fuel now unix app).1.sent
  unfolding authorised
  authorised-Sent cfg ctx body world fuel now unix app access =
      let model = canonical_model_name cfg body.model_name in
      let endpoints = map_or [] (λ m. m.endpoints) (find_model cfg model) in
      let collected = collect_banned endpoints [] app now in
      let kept = sent-collect_banned endpoints [] app now in
      elim (Bool-cases (length endpoints == length collected.0 && ltb 0 (length endpoints))) [
        | inl all ↦
            rw (authorised, access, all) (unsent (OfModel cfg model) app.sent collected.1.sent kept)
        | inr some_left ↦
            rw (authorised, access, some_left)
              (rebase (OfModel cfg model) app.sent collected.1.sent _ kept
                (route-Sent cfg ctx body collected.0 world fuel now unix collected.1))
      ]

  -- What `proxy_handler` sends: nothing; or, where the request is authenticated, its body is read
  -- and its token has access to the model, requests to endpoints of that model, each with the url
  -- and the key of the endpoint.
  pub proxy_handler-sends :
      (cfg : AppConfig F) (req : ProxyRequest F) (world : ℕ → SelectedEndpoint F → Round) (fuel : ℕ)
      (app : AppState F G R)
      → ((proxy_handler cfg req world fuel app).1.sent ≡ app.sent)
        ⊎ ((ctx : AuthContext F) × (body : ParsedBody) × (req.auth ≡ some ctx)
            × (req.body ≡ some body)
            × (token_has_model_access cfg ctx.token_key (canonical_model_name cfg body.model_name)
                ≡ true)
            × Sent
                (OfModel cfg (canonical_model_name cfg body.model_name))
                app.sent
                (proxy_handler cfg req world fuel app).1.sent)
  unfolding proxy_handler
  proxy_handler-sends cfg req world fuel app = elim (Option-cases req.auth) [
    | inl e ↦ inl (rw (proxy_handler, e) refl)
    | inr (ctx, e) ↦ elim (Option-cases req.body) [
      | inl unread ↦ inl (rw (proxy_handler, e, unread) refl)
      | inr (body, read) ↦
          elim (Bool-cases
            (token_has_model_access cfg ctx.token_key (canonical_model_name cfg body.model_name))) [
              | inr denied ↦ inl (rw (proxy_handler, e, read, authorised, denied) refl)
              | inl granted ↦ inr (
                ctx,
                body,
                e,
                read,
                granted,
                rw (proxy_handler, e, read)
                    (authorised-Sent cfg ctx body world fuel req.now req.unix app granted),
              )
            ]
    ]
  ]
