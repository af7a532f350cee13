-- ===== src/Proxy/Replies/Generic.antt =====
-- src/proxy/handler.rs: the HTTP responses of `proxy_generic`. Which texts can be the value of a
-- header, and how an `f64` is printed, are parameters.
use rust_ai_router.Base.{
  ℕ, ◌&&◌, not, ltb, leb, Bool, true, false, [], ◌∷◌, ◌++◌, ◌≡◌, Str, bytes, to_string,
  if◌then◌else◌, arith,
}
use rust_ai_router.Base.Dict
use rust_ai_router.Base.Dict.{Dict}
use rust_ai_router.Json.{Json, JsonLaws}
use rust_ai_router.Proxy.Generic.{
  GenericReply, unauthorized, not_found, bad_request, body_read_failed, no_models, upstream_error,
  limited, forbidden, no_endpoint, relayed,
}
use rust_ai_router.Proxy.Headers.{Headers, relay_headers}
use rust_ai_router.Proxy.Replies.{
  HttpReply, text_reply, json_error, rate_limit_response, scope_of, insert_headers,
}
use rust_ai_router.Proxy.Replies.Errors.{IsError, json_error-IsError, rate_limit_response-IsError}
use rust_ai_router.Router.Balancer.{SelectedEndpoint}

module _ (V : Type 0) {F : Type 0} ⦃json : Json V⦄ (is_header_value : Str → Bool)
    (tenths : F → Str) where
  -- The replies. `problem` says why a body cannot be read, `failure` why an endpoint cannot be
  -- reached, and `answer` is what the relayed response is.
  unfoldable pub generic_reply :
      Str → Str → Str → (SelectedEndpoint F → ℕ → HttpReply) → GenericReply F → HttpReply
  unfolding json_error rate_limit_response scope_of
  generic_reply team problem failure answer unauthorized =
      json_error V 401 (bytes "Authentication required. Please provide a valid Bearer token.")
        (bytes "authentication_error") (bytes "missing_auth")
  generic_reply team problem failure answer not_found =
      json_error V 404 (bytes "Not found") (bytes "not_found") (bytes "not_found")
  generic_reply team problem failure answer bad_request = text_reply 400 problem
  generic_reply team problem failure answer body_read_failed =
      json_error V 400 (bytes "Failed to read body: " ++ problem) (bytes "invalid_request_error")
        (bytes "body_read_failed")
  generic_reply team problem failure answer no_models =
      json_error V 503 (bytes "No models configured") (bytes "service_unavailable")
        (bytes "no_models_configured")
  generic_reply team problem failure answer upstream_error =
      json_error V 502 (bytes "Upstream error: " ++ failure) (bytes "bad_gateway")
        (bytes "upstream_network_error")
  generic_reply team problem failure answer (limited scope rl) =
      rate_limit_response V is_header_value tenths rl (scope_of team scope)
  generic_reply team problem failure answer (forbidden model) =
      json_error V 403 (bytes "Model '" ++ model ++ bytes "' not allowed for this token")
        (bytes "access_denied") (bytes "model_not_allowed")
  generic_reply team problem failure answer (no_endpoint model) =
      json_error V 503 (bytes "No endpoint for model: " ++ model) (bytes "service_unavailable")
        (bytes "no_available_endpoint")
  generic_reply team problem failure answer (relayed ep status) = answer ep status

-- What the router says of an answer.
unfoldable pub generic_headers : {F : Type 0} → SelectedEndpoint F → ℕ → Headers
unfolding to_string
generic_headers ep latency_ms =
    (bytes "x-endpoint-used", ep.url)
    ∷ (bytes "x-endpoint-index", to_string ep.index)
    ∷ (bytes "x-latency-ms", to_string latency_ms)
    ∷ []

-- An answer that is given to the client. Those of a request that is not streamed are copied twice, in
-- `proxy_raw` and again around the body.
unfoldable pub generic_delivered :
    {F : Type 0} → (Str → Bool) → Bool → SelectedEndpoint F → ℕ → Headers → ℕ → Str → HttpReply
unfolding relay_headers insert_headers generic_headers
generic_delivered is_header_value is_stream ep status upstream latency_ms body =
    let relayed_headers =
      if is_stream then relay_headers upstream else relay_headers (relay_headers upstream) in
    record {
      status = status;
      headers =
          if is_stream && not (leb 200 status && ltb status 300)
          then (bytes "content-type", bytes "application/json") ∷ []
          else insert_headers is_header_value relayed_headers (generic_headers ep latency_ms);
      body = body;
    }

-- A reply that the router makes itself, of a body that it could read.
abbrev pub is_generic_refusal : {F : Type 0} → GenericReply F → Bool
is_generic_refusal bad_request = false
is_generic_refusal (relayed ep status) = false
is_generic_refusal r = true

module _ {V : Type 0} ⦃json : Json V⦄ (laws : JsonLaws V) where
  -- With the laws of serde_json: a client that gets no answer of an endpoint from `proxy_generic`,
  -- though a JSON body was read, gets an error in the format of the OpenAI interface: a status from
  -- 400 to 599, and JSON whose `error` has a code as text. `WWW-Authenticate` is there just with the
  -- status 401.
  pub generic_reply-IsError :
      {F : Type 0} (is_header_value : Str → Bool) (tenths : F → Str) (team problem failure : Str)
      (answer : SelectedEndpoint F → ℕ → HttpReply) (r : GenericReply F)
      → is_generic_refusal r ≡ true
      → IsError V (generic_reply V is_header_value tenths team problem failure answer r)
  unfolding generic_reply
  generic_reply-IsError is_header_value tenths team problem failure answer unauthorized h =
      json_error-IsError laws 401 _ _ _ (omega arith)
  generic_reply-IsError is_header_value tenths team problem failure answer not_found h =
      json_error-IsError laws 404 _ _ _ (omega arith)
  generic_reply-IsError is_header_value tenths team problem failure answer bad_request h = cc
  generic_reply-IsError is_header_value tenths team problem failure answer body_read_failed h =
      json_error-IsError laws 400 _ _ _ (omega arith)
  generic_reply-IsError is_header_value tenths team problem failure answer no_models h =
      json_error-IsError laws 503 _ _ _ (omega arith)
  generic_reply-IsError is_header_value tenths team problem failure answer upstream_error h =
      json_error-IsError laws 502 _ _ _ (omega arith)
  generic_reply-IsError is_header_value tenths team problem failure answer (limited scope rl) h =
      rate_limit_response-IsError laws is_header_value tenths rl (scope_of team scope)
  generic_reply-IsError is_header_value tenths team problem failure answer (forbidden m) h =
      json_error-IsError laws 403 _ _ _ (omega arith)
  generic_reply-IsError is_header_value tenths team problem failure answer (no_endpoint m) h =
      json_error-IsError laws 503 _ _ _ (omega arith)
  generic_reply-IsError is_header_value tenths team problem failure answer (relayed ep status) h =
      cc
