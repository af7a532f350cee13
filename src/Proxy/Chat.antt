-- ===== src/Proxy/Chat.antt =====
-- src/proxy/handler.rs: `proxy_handler` between the bytes of a request and those of the answers.
pub mod Model
pub mod Session
use rust_ai_router.Auth.{AuthContext}
use rust_ai_router.Base.{
  ℕ, Bool, false, Option, none, some, Str, map_or, map_opt, if◌then◌else◌, Float,
}
use rust_ai_router.Config.{AppConfig}
use rust_ai_router.Json.{Json}
use rust_ai_router.Proxy.Attempt.{Outcome, network_error, answered, Round, Reply}
use rust_ai_router.Proxy.Body.{
  ChatRequest, strip_base_path, read_body_and_parse, rewrite_request, parsed_body,
}
use rust_ai_router.Proxy.Handler.{ProxyRequest, proxy_handler}
use rust_ai_router.Proxy.Response.{answer_usage}
use rust_ai_router.Proxy.State.{AppState}
use rust_ai_router.RateLimit.Store.{Governor}
use rust_ai_router.Router.Balancer.{SelectedEndpoint}
use rust_ai_router.Sync.{Redis}

-- A request as it arrives; its body may break off.
pub record HttpRequest (F : Type 0) : Type 0 where
  pub auth : Option (AuthContext F)
  pub path : Str
  pub body : Option Str
  pub now : ℕ
  pub unix : ℕ

-- A round with the status and the bytes of the answer, unless there is none.
pub record HttpRound : Type 0 where
  pub now : ℕ
  pub unix : ℕ
  pub answered_at : ℕ
  pub answer : Option (ℕ × Str)

module _ (V : Type 0) ⦃json : Json V⦄ where
  -- The tokens of a stream are deducted when it ends, and not in the round.
  unfoldable pub round_of : Bool → HttpRound → Round
  unfolding answer_usage
  round_of is_stream r = record {
    now = r.now;
    unix = r.unix;
    answered_at = r.answered_at;
    outcome = elim r.answer [
      | none ↦ network_error
      | some a ↦
          let (prompt, completion) = answer_usage V a.1 in
          if is_stream then answered a.0 0 0 else answered a.0 prompt completion
    ];
  }

module _ (V : Type 0) {F : Type 0} ⦃json : Json V⦄ where
  -- The body as it is rewritten, unless it cannot be read.
  unfoldable pub chat_request : AppConfig F → Str → HttpRequest F → Option ChatRequest
  unfolding strip_base_path read_body_and_parse rewrite_request
  chat_request cfg base_path req =
      let body : Option (Str × V) = read_body_and_parse req.body in
      map_opt (rewrite_request cfg (strip_base_path req.path base_path)) body

module _ (V : Type 0) {F : Type 0} ⦃json : Json V⦄ where
  -- The request as the rest of the handler sees it.
  unfoldable pub proxy_request : AppConfig F → Str → HttpRequest F → ProxyRequest F
  unfolding chat_request parsed_body
  proxy_request cfg base_path req = record {
    auth = req.auth;
    body = map_opt (parsed_body V) (chat_request V cfg base_path req);
    now = req.now;
    unix = req.unix;
  }

module _ (V : Type 0) {F G R : Type 0} ⦃json : Json V⦄ ⦃fl : Float F⦄ ⦃gov : Governor G⦄
    ⦃redis : Redis R⦄ where
  -- `proxy_handler`, where `world` says what the endpoints answer.
  unfoldable pub chat_handler :
      AppConfig F
      → Str
      → HttpRequest F
      → (ℕ → SelectedEndpoint F → HttpRound)
      → ℕ
      → AppState F G R
      → Option (Reply F) × AppState F G R
  unfolding chat_request proxy_request round_of
  chat_handler cfg base_path req world fuel app =
      let request = chat_request V cfg base_path req in
      proxy_handler cfg (proxy_request V cfg base_path req)
        (λ n ep. round_of V (map_or false (λ r. r.is_stream) request) (world n ep)) fuel app
