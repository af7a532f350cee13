-- ===== src/Proxy/Handler.antt =====
-- src/proxy/handler.rs: `proxy_handler`, with what it reads from the body, after the Anthropic
-- translation, as an argument: Proxy/Chat makes it from the bytes. The configuration is the one that is loaded when the request arrives. No other request runs meanwhile.
pub mod Loop
pub mod Access
use rust_ai_router.Auth.{AuthContext}
use rust_ai_router.Base.{
  ℕ, zero, suc, ◌+◌, ◌≤◌, ◌<◌, Bool, true, false, ◌&&◌, ◌||◌, Option, none, some, List, [], ◌∷◌,
  Str, bytes, length, get_elem?, contains, map_or, ltb, ◌==◌, if◌then◌else◌, Float,
}
use rust_ai_router.Config.{
  AppConfig, ModelConfig, EndpointConfig, find_model, canonical_model_name, token_has_model_access,
}
use rust_ai_router.Fail2ban
use rust_ai_router.Keys.{endpoint_key}
use rust_ai_router.Proxy.Attempt.{
  Outcome, Round, Reply, bad_request, unauthorized, forbidden, all_banned, no_endpoint, limited,
  Prepared, Turn, Next, done, again, attempt, insert,
}
use rust_ai_router.Proxy.Limits.{check_all_rate_limits}
use rust_ai_router.Proxy.State.{AppState, count_error, with_fail2ban, with_sync, with_sticky}
use rust_ai_router.RateLimit.Store.{Governor}
use rust_ai_router.Router.Balancer.{SelectedEndpoint, build_selected_endpoint, select_available}
use rust_ai_router.Router.Sticky
use rust_ai_router.Sync
use rust_ai_router.Sync.{Redis}

-- What the handler reads from the body.
pub record ParsedBody : Type 0 where
  pub model_name : Str
  pub is_stream : Bool
  pub session_id : Option Str

-- A request: its authentication context, its body unless it cannot be read, and its time.
pub record ProxyRequest (F : Type 0) : Type 0 where
  pub auth : Option (AuthContext F)
  pub body : Option ParsedBody
  pub now : ℕ
  pub unix : ℕ

module _ {F G R : Type 0} ⦃fl : Float F⦄ ⦃gov : Governor G⦄ ⦃redis : Redis R⦄ where
  -- `fail2ban.is_banned(&k) || sync.is_banned(&k).await`
  unfoldable pub is_banned_anywhere : AppState F G R → Str → ℕ → Bool × AppState F G R
  is_banned_anywhere app key now =
      let (here, fb) = Fail2ban.is_banned app.limits.fail2ban key now in
      let (elsewhere, sync) = Sync.is_banned app.limits.sync key in
      let asked = with_fail2ban app fb in
      if here then (true, asked) else (elsewhere, with_sync asked sync)

  -- The loop that collects `banned_keys`.
  unfoldable pub collect_banned :
      List (EndpointConfig F) → List Str → AppState F G R → ℕ → List Str × AppState F G R
  unfolding is_banned_anywhere
  collect_banned [] banned app now = (banned, app)
  collect_banned (ep ∷ eps) banned app now =
      let (found, app') = is_banned_anywhere app (endpoint_key ep) now in
      collect_banned eps (if found then insert banned (endpoint_key ep) else banned) app' now

  -- The index that the session is tied to: here, or else in Redis.
  unfoldable pub sticky_index : AppState F G R → Str → ℕ → Option ℕ × AppState F G R
  sticky_index app sid now =
      let (here, sticky) = Sticky.get app.session.sticky sid now in
      let (elsewhere, sync) = Sync.get_sticky app.limits.sync sid in
      let asked = with_sticky app sticky in
      elim here [ some i ↦ (some i, asked) | none ↦ (elsewhere, with_sync asked sync) ]

  -- The endpoint that a session is tied to, unless it is banned.
  unfoldable pub sticky_endpoint :
      Option (ModelConfig F)
      → List Str
      → Option Str
      → AppState F G R
      → ℕ
      → Option (SelectedEndpoint F) × AppState F G R
  unfolding sticky_index
  sticky_endpoint model banned none app now = (none, app)
  sticky_endpoint model banned (some sid) app now =
      let (index, app') = sticky_index app sid now in
      let touched = with_sticky app' (Sticky.touch app'.session.sticky sid now) in
      elim index [
        | none ↦ (none, app')
        | some i ↦ elim model [
          | none ↦ (none, app')
          | some m ↦ elim (get_elem? m.endpoints i) [
            | none ↦ (none, app')
            | some ep ↦
                if contains banned (endpoint_key ep)
                then (none, app')
                else (some (build_selected_endpoint ep i (length m.endpoints)), touched)
          ]
        ]
      ]

  -- The endpoint to begin with.
  unfoldable pub initial_endpoint :
      AppConfig F
      → Str
      → List Str
      → Option Str
      → AppState F G R
      → ℕ
      → Option (SelectedEndpoint F) × AppState F G R
  unfolding sticky_endpoint
  initial_endpoint cfg model_name banned session_id app now =
      let (sticky, app') = sticky_endpoint (find_model cfg model_name) banned session_id app now in
      let (next, router) = select_available cfg app'.router model_name banned [] in
      elim sticky [ some ep ↦ (some ep, app') | none ↦ (next, record app' { router = router }) ]

  -- The retry loop, as far as the fuel goes. `world` says what happens in the round `n` when an
  -- endpoint is asked.
  unfoldable pub retry_loop :
      AppConfig F
      → Prepared
      → (ℕ → SelectedEndpoint F → Round)
      → ℕ
      → ℕ
      → AppState F G R
      → Turn F
      → Option (Reply F) × AppState F G R
  retry_loop cfg p world zero n app turn = (none, app)
  retry_loop cfg p world (suc fuel) n app turn =
      let (next, app') = attempt cfg p app turn (world n turn.current_endpoint) in
      elim next [
        | done reply ↦ (some reply, app')
        | again turn' ↦ retry_loop cfg p world fuel (suc n) app' turn'
      ]

  -- From the choice of the endpoint on.
  unfoldable pub route :
      AppConfig F
      → AuthContext F
      → ParsedBody
      → List Str
      → (ℕ → SelectedEndpoint F → Round)
      → ℕ
      → ℕ
      → ℕ
      → AppState F G R
      → Option (Reply F) × AppState F G R
  unfolding initial_endpoint retry_loop
  route cfg ctx body banned world fuel now unix app =
      let model = canonical_model_name cfg body.model_name in
      let (initial, app') = initial_endpoint cfg model banned body.session_id app now in
      let (refused, app'') =
        check_all_rate_limits cfg app' ctx.team ctx.token_key ctx.rpm ctx.tpm now unix in
      elim initial [
        | none ↦ (
          some (no_endpoint model),
          record app' {
            live_stats = count_error app'.live_stats ctx.token_key ctx.team (bytes "no_endpoint");
          },
        )
        | some ep ↦ elim refused [
          | some rl ↦ (
            some (limited rl.0 rl.1),
            record app'' {
              live_stats =
                  count_error app''.live_stats ctx.token_key ctx.team (bytes "rate_limited");
            },
          )
          | none ↦
              retry_loop cfg
                (record {
                  token_key = ctx.token_key;
                  team = ctx.team;
                  token_tpm = ctx.tpm;
                  canonical_model = model;
                  is_stream = body.is_stream;
                  session_id = body.session_id;
                  banned_keys = banned;
                })
                world fuel 0 app''
                (record { current_endpoint = ep; tried_keys = []; last_error_response = none })
        ]
      ]

  -- From the access check on.
  unfoldable pub authorised :
      AppConfig F
      → AuthContext F
      → ParsedBody
      → (ℕ → SelectedEndpoint F → Round)
      → ℕ
      → ℕ
      → ℕ
      → AppState F G R
      → Option (Reply F) × AppState F G R
  unfolding collect_banned route
  authorised cfg ctx body world fuel now unix app =
      let model = canonical_model_name cfg body.model_name in
      let endpoints = map_or [] (λ m. m.endpoints) (find_model cfg model) in
      let (banned, app') = collect_banned endpoints [] app now in
      if token_has_model_access cfg ctx.token_key model
      then (if length endpoints == length banned && ltb 0 (length endpoints)
          then (
            some (all_banned model),
            record app' {
              live_stats = count_error app'.live_stats ctx.token_key ctx.team (bytes "all_banned");
            },
          )
          else route cfg ctx body banned world fuel now unix app')
      else (
        some (forbidden body.model_name),
        record app {
          live_stats = count_error app.live_stats ctx.token_key ctx.team (bytes "forbidden");
        },
      )

  -- `proxy_handler`
  unfoldable pub proxy_handler :
      AppConfig F
      → ProxyRequest F
      → (ℕ → SelectedEndpoint F → Round)
      → ℕ
      → AppState F G R
      → Option (Reply F) × AppState F G R
  unfolding authorised
  proxy_handler cfg req world fuel app = elim req.auth [
    | none ↦ (some unauthorized, app)
    | some ctx ↦ elim req.body [
      | none ↦ (some bad_request, app)
      | some body ↦ authorised cfg ctx body world fuel req.now req.unix app
    ]
  ]
