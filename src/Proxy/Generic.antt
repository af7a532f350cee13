-- ===== src/Proxy/Generic.antt =====
-- src/proxy/handler.rs: `proxy_generic`, which hands a request to the next endpoint of its model
-- and does not try another one.
pub mod Access
pub mod Refusal
use rust_ai_router.Anthropic.{model_of}
use rust_ai_router.Auth.{AuthContext}
use rust_ai_router.Base.{
  ℕ, ◌+◌, ◌-◌, as_millis, Bool, true, false, not, ◌&&◌, Option, none, some, List, [], ◌∷◌, ◌++◌,
  Str, bytes, same, any, find, take, drop, trim, length, starts_with, find_str, contains_str,
  from_utf8_lossy, and_then, map_opt, get_or, or_else, is_some, leb, ltb, if◌then◌else◌, Float,
}
use rust_ai_router.Config.{AppConfig, ModelConfig, canonical_model_name, token_has_model_access}
use rust_ai_router.Fail2ban
use rust_ai_router.Fail2ban.{is_fail_status, record_failure, record_failure_with_code}
use rust_ai_router.Health
use rust_ai_router.Health.{is_success}
use rust_ai_router.Json.{Json, member}
use rust_ai_router.Proxy.Attempt.{Prepared, consume_usage, saturating_add, selected_key}
use rust_ai_router.Proxy.Body.{strip_base_path, read_body_and_parse, max_body}
use rust_ai_router.Proxy.Chat.{HttpRound}
use rust_ai_router.Proxy.Limits.{Limited, check_all_rate_limits}
use rust_ai_router.Proxy.Response.{answer_usage}
use rust_ai_router.Proxy.State.{AppState, count_request, count_error, with_fail2ban}
use rust_ai_router.Proxy.Stream.{finish_stream}
use rust_ai_router.RateLimit.Store.{Governor, RateLimitResult}
use rust_ai_router.Router.Balancer.{SelectedEndpoint, select_endpoint}
use rust_ai_router.Sync.{Redis}

-- A request: its path with the query, its content type, empty when there is none, and its body.
pub record GenericRequest (F : Type 0) : Type 0 where
  pub auth : Option (AuthContext F)
  pub path_and_query : Str
  pub content_type : Str
  pub body : Option Str
  pub now : ℕ
  pub unix : ℕ

-- The responses.
pub data GenericReply (F : Type 0) : Type 0 where
  unauthorized not_found bad_request body_read_failed no_models upstream_error : GenericReply F
  limited : Limited → RateLimitResult F → GenericReply F
  forbidden no_endpoint : Str → GenericReply F
  relayed : SelectedEndpoint F → ℕ → GenericReply F

-- What is read of a body: its bytes, the model and whether it asks for a stream; or the reply.
pub data Extracted (F : Type 0) : Type 0 where
  refused : GenericReply F → Extracted F
  extracted : Str → Str → Bool → Extracted F

-- `req_path_type`
unfoldable pub req_path_type : Str → Str
unfolding contains_str
req_path_type path =
    if contains_str path (bytes "/audio/")
    then bytes "audio"
    else if contains_str path (bytes "/embeddings")
    then bytes "embedding"
    else if contains_str path (bytes "/rerank")
    then bytes "rerank"
    else if contains_str path (bytes "/completions") && not (contains_str path (bytes "/chat/"))
    then bytes "completions"
    else bytes "chat"

-- `parse_multipart_model`: the text from the empty line after the marker to the next carriage
-- return. Of the boundary, only its presence is asked for.
abbrev model_marker : Str
model_marker = bytes "name=" ++ (34 ∷ bytes "model") ++ (34 ∷ [])

unfoldable pub multipart_value : Str → Option Str
unfolding find_str trim
multipart_value after_marker = and_then (find_str after_marker (13 ∷ 10 ∷ 13 ∷ 10 ∷ [])) (λ blank.
    let value = drop (blank + 4) after_marker in
    map_opt (λ end. trim (take end value)) (find_str value (13 ∷ [])))

unfoldable pub parse_multipart_model : Str → Str → Option Str
unfolding multipart_value find_str contains_str from_utf8_lossy
parse_multipart_model body content_type =
    let text = from_utf8_lossy body in
    let found =
      and_then (find_str text model_marker)
        (λ pos. multipart_value (drop (pos + length model_marker) text)) in
    if contains_str content_type (bytes "boundary=") then found else none

module _ {F : Type 0} where
  -- The model of a body that is not JSON: the one of the form, else the first one of the path's
  -- type, else the first one.
  unfoldable pub form_model : AppConfig F → Str → Str → Str → Option Str
  unfolding parse_multipart_model req_path_type starts_with same
  form_model cfg req_path content_type body =
      let form =
        if starts_with content_type (bytes "multipart/form-data")
        then parse_multipart_model body content_type
        else none in
      let by_type = find (λ m. same m.model_type (req_path_type req_path)) cfg.models in
      or_else form (
        or_else (map_opt (λ m. m.name) by_type)
          (map_opt (λ m. m.name) (find (λ _. true) cfg.models)))

module _ (V : Type 0) {F : Type 0} ⦃json : Json V⦄ where
  -- What is made of the body.
  unfoldable pub extract_body : AppConfig F → Str → Str → Option Str → Extracted F
  unfolding read_body_and_parse form_model model_of
  extract_body cfg req_path content_type body =
      let parsed : Option (Str × V) = read_body_and_parse body in
      let given = and_then body (λ b. if leb (length b) max_body then some b else none) in
      if starts_with content_type (bytes "application/json")
      then elim parsed [
        | none ↦ refused bad_request
        | some p ↦
            extracted p.0 (model_of p.1)
              (get_or (and_then (member p.1 (bytes "stream")) json.as_bool) false)
      ]
      else elim given [
        | none ↦ refused body_read_failed
        | some b ↦ elim (form_model cfg req_path content_type b) [
          | none ↦ refused no_models
          | some m ↦ extracted b m false
        ]
      ]

module _ {F G R : Type 0} ⦃fl : Float F⦄ ⦃gov : Governor G⦄ ⦃redis : Redis R⦄ where
  -- The endpoint gets a failure with a status code, and an error in the health store.
  unfoldable pub note_failure : AppState F G R → Str → ℕ → ℕ → AppState F G R
  unfolding record_failure_with_code Health.record_error
  note_failure app key status now =
      let (_, fb) = record_failure_with_code app.limits.fail2ban key status now in
      record (with_fail2ban app fb) { health_store = Health.record_error app.health_store key }

  -- The endpoint gets a success, a request and its latency.
  unfoldable pub note_success : AppState F G R → Str → ℕ → AppState F G R
  unfolding Fail2ban.record_success Health.record_latency Health.record_request
  note_success app key latency_ms =
      record (with_fail2ban app (Fail2ban.record_success app.limits.fail2ban key)) {
        health_store =
            Health.record_latency (Health.record_request app.health_store key) key latency_ms;
      }

  -- A streamed request: an answer that is no success ends it, whatever the failure patterns say.
  unfoldable pub stream_answered :
      Prepared → SelectedEndpoint F → AppState F G R → HttpRound → ℕ → AppState F G R
  unfolding note_failure note_success count_request selected_key
  stream_answered p ep app r status =
      let key = selected_key ep in
      let noted = note_success app key (as_millis (r.answered_at - r.now)) in
      if is_success status
      then record noted { live_stats = count_request app.live_stats p.token_key p.team key }
      else note_failure app key status r.answered_at

module _ {F : Type 0} where
  -- What the relay knows of the request; there is no session, and no ban is asked for.
  abbrev pub generic_prepared : AuthContext F → Str → Bool → Prepared
  generic_prepared ctx model is_stream = record {
    token_key = ctx.token_key;
    team = ctx.team;
    token_tpm = ctx.tpm;
    canonical_model = model;
    is_stream = is_stream;
    session_id = none;
    banned_keys = [];
  }

module _ (V : Type 0) {F G R : Type 0} ⦃json : Json V⦄ ⦃fl : Float F⦄ ⦃gov : Governor G⦄
    ⦃redis : Redis R⦄ where
  -- A request that is not streamed: the deduction, what is recorded of the endpoint, the count.
  unfoldable pub regular_answered :
      AppConfig F
      → Prepared
      → SelectedEndpoint F
      → AppState F G R
      → HttpRound
      → ℕ
      → Str
      → AppState F G R
  unfolding answer_usage consume_usage note_failure note_success count_request selected_key
      is_fail_status
  regular_answered cfg p ep app r status body =
      let key = selected_key ep in
      let (prompt, completion) = answer_usage V body in
      let paid =
        consume_usage cfg p ep app (saturating_add prompt completion) r.answered_at r.unix in
      let judged =
        if leb 400 status && is_fail_status paid.limits.fail2ban status
        then note_failure paid key status r.answered_at
        else note_success paid key (as_millis (r.answered_at - r.now)) in
      record judged { live_stats = count_request app.live_stats p.token_key p.team key }

  -- The request is handed to the client, and what comes of it. A network error is a failure with
  -- the code 0.
  unfoldable pub relay :
      AppConfig F
      → Prepared
      → SelectedEndpoint F
      → HttpRound
      → AppState F G R
      → GenericReply F × AppState F G R
  unfolding stream_answered regular_answered note_failure selected_key
  relay cfg p ep r app =
      let sending = record app { sent = ep ∷ app.sent } in
      elim r.answer [
        | none ↦ (upstream_error, note_failure sending (selected_key ep) 0 r.answered_at)
        | some a ↦ (
          relayed ep a.0,
          if p.is_stream
              then stream_answered p ep sending r a.0
              else regular_answered cfg p ep sending r a.0 a.1,
        )
      ]

  -- From the access check on.
  unfoldable pub dispatch :
      AppConfig F
      → AuthContext F
      → Str
      → Bool
      → (SelectedEndpoint F → HttpRound)
      → AppState F G R
      → GenericReply F × AppState F G R
  unfolding relay
  dispatch cfg ctx model_name is_stream world app =
      let model = canonical_model_name cfg model_name in
      let (selected, router) = select_endpoint cfg app.router model in
      let routed = record app { router = router } in
      if token_has_model_access cfg ctx.token_key model
      then elim selected [
        | none ↦ (no_endpoint model, routed)
        | some ep ↦ relay cfg (generic_prepared ctx model is_stream) ep (world ep) routed
      ]
      else (forbidden model, app)

  -- `proxy_generic`, where `world` says what an endpoint answers.
  unfoldable pub proxy_generic :
      AppConfig F
      → Str
      → GenericRequest F
      → (SelectedEndpoint F → HttpRound)
      → AppState F G R
      → GenericReply F × AppState F G R
  unfolding dispatch extract_body
  proxy_generic cfg base_path req world app = elim req.auth [
    | none ↦ (unauthorized, app)
    | some ctx ↦
        (let req_path = strip_base_path req.path_and_query base_path in
          let (over, app') =
            check_all_rate_limits cfg app ctx.team ctx.token_key ctx.rpm ctx.tpm req.now req.unix in
          if starts_with req_path (bytes "/v1/")
          then elim over [
            | some rl ↦ (
              limited rl.0 rl.1,
              record app' {
                live_stats =
                    count_error app'.live_stats ctx.token_key ctx.team (bytes "rate_limited");
              },
            )
            | none ↦ elim (extract_body V cfg req_path req.content_type req.body) [
              | refused reply ↦ (reply, app')
              | extracted body model_name is_stream ↦
                  dispatch cfg ctx model_name is_stream world app'
            ]
          ]
          else (not_found, app))
  ]

  -- The end of a stream: a chunk that is an error makes the task panic before the deduction.
  unfoldable pub generic_stream_end :
      AppConfig F
      → Prepared
      → SelectedEndpoint F
      → AppState F G R
      → List (Option Str)
      → ℕ
      → ℕ
      → AppState F G R
  unfolding finish_stream
  generic_stream_end cfg p ep app chunks now unix =
      if any (λ chunk. not (is_some chunk)) chunks
      then app
      else finish_stream V cfg p ep app chunks now unix
