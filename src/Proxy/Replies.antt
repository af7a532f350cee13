-- ===== src/Proxy/Replies.antt =====
-- src/utils.rs and src/proxy/handler.rs: the HTTP responses that the client gets. Which texts can be
-- the value of a header is the crate http's to say, and how an `f64` is printed the language's:
-- both are parameters.
pub mod Errors
pub mod Generic
pub mod Shown
use rust_ai_router.Base.{
  ℕ, ◌==◌, Bool, true, false, not, ◌&&◌, ◌||◌, List, [], ◌∷◌, ◌++◌, Str, bytes, to_string, ltb, leb,
  if◌then◌else◌, Float,
}
use rust_ai_router.Base.Dict
use rust_ai_router.Base.Dict.{Dict}
use rust_ai_router.Json.{Json}
use rust_ai_router.Proxy.Attempt.{
  Reply, bad_request, unauthorized, forbidden, all_banned, no_endpoint, limited, relayed,
  last_error, upstream_error, all_failed,
}
use rust_ai_router.Proxy.Headers.{Headers, relay_headers}
use rust_ai_router.Proxy.Limits.{
  Limited, team_shared, team_local, token_shared, token_local, endpoint_shared, endpoint_local,
}
use rust_ai_router.Proxy.Body.{ChatRequest}
use rust_ai_router.Proxy.Response.{
  own_answer, translated_answer, kept_answer, given_as, client_body,
}
use rust_ai_router.RateLimit.Store.{RateLimitResult}
use rust_ai_router.Router.Balancer.{SelectedEndpoint}

pub record HttpReply : Type 0 where
  pub status : ℕ
  pub headers : Dict Str
  pub body : Str

-- `(status, text).into_response()`
abbrev pub text_reply : ℕ → Str → HttpReply
text_reply status text = record {
  status = status;
  headers = (bytes "content-type", bytes "text/plain; charset=utf-8") ∷ [];
  body = text;
}

module _ {V : Type 0} ⦃json : Json V⦄ where
  abbrev pub error_value : Str → Str → Str → V
  error_value message err_type code = json.object (
      (
        bytes "error",
        json.object (
            (bytes "message", json.string message)
            ∷ (bytes "type", json.string err_type)
            ∷ (bytes "param", json.null)
            ∷ (bytes "code", json.string code)
            ∷ []),
      )
      ∷ [])

module _ (V : Type 0) ⦃json : Json V⦄ where
  -- `json_error`
  unfoldable pub json_error : ℕ → Str → Str → Str → HttpReply
  unfolding Dict.put
  json_error status message err_type code =
      let headers = (bytes "content-type", bytes "application/json") ∷ [] in
      record {
        status = status;
        headers =
            if status == 401
            then Dict.put headers (bytes "www-authenticate") (bytes "Bearer")
            else headers;
        body = json.to_vec (error_value message err_type code);
      }

module _ (is_header_value : Str → Bool) where
  unfoldable pub insert_header : Dict Str → Str → Str → Dict Str
  unfolding Dict.put
  insert_header headers name v = if is_header_value v then Dict.put headers name v else headers

  unfoldable pub insert_headers : Dict Str → Headers → Dict Str
  unfolding insert_header
  insert_headers headers [] = headers
  insert_headers headers ((name, v) ∷ rest) = insert_headers (insert_header headers name v) rest

-- The limit and the seconds to wait, for requests and again for tokens.
abbrev pub limit_headers : Str → Str → Headers
limit_headers limit retry =
    (bytes "x-ratelimit-limit-requests", limit)
    ∷ (bytes "x-ratelimit-remaining-requests", bytes "0")
    ∷ (bytes "x-ratelimit-reset-requests", retry)
    ∷ (bytes "x-ratelimit-limit-tokens", limit)
    ∷ (bytes "x-ratelimit-remaining-tokens", bytes "0")
    ∷ (bytes "x-ratelimit-reset-tokens", retry)
    ∷ []

-- The scope that a refusal names.
unfoldable pub scope_of : Str → Limited → Str
scope_of team team_shared = bytes "Team '" ++ team ++ bytes "' (shared)"
scope_of team team_local = bytes "Team '" ++ team ++ bytes "'"
scope_of team token_shared = bytes "Token (shared)"
scope_of team token_local = bytes "Token"
scope_of team endpoint_shared = bytes "Endpoint (shared)"
scope_of team endpoint_local = bytes "Endpoint"

module _ (V : Type 0) {F : Type 0} ⦃json : Json V⦄ (is_header_value : Str → Bool)
    (tenths : F → Str) where
  -- `rate_limit_response`; `tenths` prints with one digit behind the point.
  unfoldable pub rate_limit_response : RateLimitResult F → Str → HttpReply
  unfolding insert_headers to_string
  rate_limit_response rl scope =
      let code = bytes "rate_limit_exceeded" in
      let limit = to_string rl.limit in
      let retry = tenths rl.reset_after_secs in
      let message =
        bytes "Rate limit exceeded for "
        ++ scope
        ++ bytes " ("
        ++ limit
        ++ bytes " per minute). Retry after "
        ++ retry
        ++ bytes "s" in
      let body : V = error_value message code code in
      record {
        status = 429;
        headers =
            insert_headers is_header_value ((bytes "content-type", bytes "application/json") ∷ [])
              (limit_headers limit retry);
        body = json.to_vec body;
      }

  -- The replies of `proxy_handler`. `problem` says why a body cannot be read, `failure` why an
  -- endpoint cannot be reached, and `answer` is what an answer comes to, kept or not.
  unfoldable pub chat_reply :
      Str → Str → Str → (Bool → SelectedEndpoint F → ℕ → HttpReply) → Reply F → HttpReply
  unfolding json_error rate_limit_response scope_of
  chat_reply team problem failure answer bad_request = text_reply 400 problem
  chat_reply team problem failure answer unauthorized =
      json_error V 401 (bytes "Authentication required. Please provide a valid Bearer token.")
        (bytes "authentication_error") (bytes "missing_auth")
  chat_reply team problem failure answer (forbidden model_name) =
      json_error V 403 (bytes "Token has no access to model: " ++ model_name)
        (bytes "access_denied") (bytes "model_not_allowed")
  chat_reply team problem failure answer (all_banned model) =
      json_error V 503 (bytes "All endpoints banned for model: " ++ model)
        (bytes "service_unavailable") (bytes "all_endpoints_banned")
  chat_reply team problem failure answer (no_endpoint model) =
      json_error V 503 (bytes "No available endpoint for model: " ++ model)
        (bytes "service_unavailable") (bytes "no_available_endpoint")
  chat_reply team problem failure answer (limited scope rl) =
      rate_limit_response rl (scope_of team scope)
  chat_reply team problem failure answer (relayed ep status) = answer false ep status
  chat_reply team problem failure answer (last_error ep status) = answer true ep status
  chat_reply team problem failure answer upstream_error =
      json_error V 502 (bytes "Upstream error: " ++ failure) (bytes "bad_gateway")
        (bytes "upstream_network_error")
  chat_reply team problem failure answer all_failed =
      json_error V 503 (bytes "All endpoints failed") (bytes "service_unavailable")
        (bytes "all_endpoints_failed")

module _ {F : Type 0} ⦃fl : Float F⦄ (print : F → Str) where
  -- What the router says of an answer; `instance_name` is the variable HOSTNAME, or "unknown".
  unfoldable pub own_headers : SelectedEndpoint F → ℕ → Str → Headers
  unfolding to_string
  own_headers ep latency_ms instance_name =
      let zero_cost = fl.of_u64 0 in
      (bytes "x-endpoint-used", ep.url)
      ∷ (bytes "x-endpoint-index", to_string ep.index)
      ∷ (bytes "x-latency-ms", to_string latency_ms)
      ∷ (bytes "x-instance", instance_name)
      ∷ (if fl.gt ep.cost_prompt zero_cost || fl.gt ep.cost_completion zero_cost
          then (bytes "x-cost-prompt-per-1m", print ep.cost_prompt)
            ∷ (bytes "x-cost-completion-per-1m", print ep.cost_completion)
            ∷ []
          else [])

-- The headers of an answer before the router's own: a stream that the endpoint refuses keeps none.
unfoldable pub answer_headers : Bool → ℕ → Headers → Dict Str
unfolding relay_headers
answer_headers is_stream status upstream =
    if is_stream && not (leb 200 status && ltb status 300)
    then (bytes "content-type", bytes "application/json") ∷ []
    else relay_headers upstream

module _ (V : Type 0) {F : Type 0} ⦃json : Json V⦄ ⦃fl : Float F⦄ (is_header_value : Str → Bool)
    (print : F → Str) where
  -- An answer of an endpoint as the client of `proxy_handler` gets it.
  unfoldable pub delivered_reply :
      ChatRequest → Str → Bool → SelectedEndpoint F → ℕ → Headers → ℕ → Str → Str → HttpReply
  unfolding own_headers answer_headers insert_headers given_as client_body
  delivered_reply r uuid kept ep status upstream latency_ms instance_name body =
      let copied = answer_headers r.is_stream status upstream in
      record {
        status = status;
        headers = elim (given_as V r kept body) [
          | own_answer ↦
              insert_headers is_header_value copied (own_headers print ep latency_ms instance_name)
          | translated_answer ↦ (bytes "content-type", bytes "application/json") ∷ []
          | kept_answer ↦ copied
        ];
        body = client_body V r uuid kept body;
      }
