-- ===== src/Proxy/Body.antt =====
-- src/proxy/handler.rs: what `proxy_handler` reads from a request, and what it makes of its body
-- before it is handed to an endpoint.
use rust_ai_router.Anthropic.{is_anthropic_request, model_of, translate_request}
use rust_ai_router.Base.{
  ℕ, ◌*◌, Bool, false, Option, none, ◌∷◌, Str, bytes, same, strip_prefix, trim_start_matches,
  trim_end_matches, from_utf8_lossy, length, is_empty, and_then, map_opt, get_or, leb,
  if◌then◌else◌,
}
use rust_ai_router.Config.{AppConfig, canonical_model_name}
use rust_ai_router.Json.{Json, member, assign, str_member}
use rust_ai_router.Proxy.Handler.{ParsedBody}

-- `strip_base_path`
unfoldable pub strip_base_path : Str → Str → Str
unfolding trim_start_matches trim_end_matches strip_prefix
strip_base_path path base_path =
    let bp = trim_end_matches b'/' (trim_start_matches b'/' base_path) in
    if is_empty bp then path else get_or (strip_prefix (b'/' ∷ bp) path) path

-- The most bytes that are read of a body.
abbrev pub max_body : ℕ
max_body = 50 * 1024 * 1024

-- What is sent upstream, and what the rest of the handler needs to know.
pub record ChatRequest : Type 0 where
  pub upstream_path : Str
  pub body_bytes : Str
  pub model_name : Str
  pub is_stream : Bool
  pub is_anthropic : Bool

module _ {V : Type 0} ⦃json : Json V⦄ where
  -- `read_body_and_parse`, `none` being a body that breaks off.
  unfoldable pub read_body_and_parse : Option Str → Option (Str × V)
  read_body_and_parse body = and_then body (λ body_bytes.
      if leb (length body_bytes) max_body
      then map_opt (λ v. (body_bytes, v)) (json.from_slice body_bytes)
      else none)

  -- The translation of a request to the Anthropic path: its bytes, its value and its model.
  unfoldable pub translated_body : Str → Str × V → Str × V × Str
  unfolding is_anthropic_request model_of translate_request
  translated_body path (body_bytes, body) =
      let (translated, model) = translate_request body in
      if is_anthropic_request path
      then (json.to_vec translated, translated, model)
      else (body_bytes, body, model_of body)

module _ {V F : Type 0} ⦃json : Json V⦄ where
  -- From the reading of the model to its canonical name in the body.
  unfoldable pub rewrite_request : AppConfig F → Str → Str × V → ChatRequest
  unfolding translated_body same canonical_model_name
  rewrite_request cfg path body =
      let (body_bytes, value, model) = translated_body path body in
      let canonical = canonical_model_name cfg model in
      record {
        upstream_path = if is_anthropic_request path then bytes "/v1/chat/completions" else path;
        body_bytes =
            if same canonical model
            then body_bytes
            else json.to_vec (assign value (bytes "model") (json.string canonical));
        model_name = model;
        is_stream = get_or (and_then (member body.1 (bytes "stream")) json.as_bool) false;
        is_anthropic = is_anthropic_request path;
      }

module _ (V : Type 0) ⦃json : Json V⦄ where
  -- `get_session_id`
  unfoldable pub get_session_id : Str → Option Str
  get_session_id body =
      and_then (json.from_slice (from_utf8_lossy body))
        (λ v. str_member v (bytes "x-sticky-session-id"))

  -- What `proxy_handler` knows of the body in the rest of its run.
  unfoldable pub parsed_body : ChatRequest → ParsedBody
  unfolding get_session_id
  parsed_body r = record {
    model_name = r.model_name;
    is_stream = r.is_stream;
    session_id = get_session_id r.body_bytes;
  }
