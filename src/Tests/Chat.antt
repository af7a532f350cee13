-- ===== src/Tests/Chat.antt =====
-- src/proxy/handler.rs and src/proxy/anthropic.rs between the bytes of requests and answers.
use rust_ai_router.Anthropic.{is_anthropic_request, model_of, translate_request}
use rust_ai_router.Anthropic.Request.{translated_member, member-translate_request}
use rust_ai_router.Auth.{AuthContext}
use rust_ai_router.Base.{
  List, ℕ, ◌≡◌, ◌≤◌, ◌⊎◌, refl, true, false, none, some, [], ◌∷◌, Str, bytes, same, length,
  contains, get_elem?, if◌then◌else◌, from_secs, arith, strip_suffix, keep, eq_ignore_ascii_case,
}
use rust_ai_router.Base.Dict.{get}
use rust_ai_router.Config.{token_has_model_access}
use rust_ai_router.Json.{member}
use rust_ai_router.Json.Members.{member-object}
use rust_ai_router.Proxy.Body.{ChatRequest, max_body, rewrite_request, get_session_id}
use rust_ai_router.Proxy.Chat.{HttpRequest, HttpRound, chat_request, chat_handler}
use rust_ai_router.Proxy.Chat.Model.{chat_handler-sends}
use rust_ai_router.Proxy.Chat.Session.{rewrite_request-session}
use rust_ai_router.Proxy.Handler.Access.{Sent, OfModel}
use rust_ai_router.Proxy.Response.{normalize_openai_response}
use rust_ai_router.Proxy.Response.Choices.{normalize_openai_response-choice}
use rust_ai_router.Proxy.Stream.{no_usage, stream_usage}
use rust_ai_router.Proxy.Stream.Chunks.{read_events, events_after, stream_usage-events}
use rust_ai_router.Proxy.Headers.{Outgoing, chat_outgoing}
use rust_ai_router.Proxy.Headers.Kept.{authorization-chat_outgoing}
use rust_ai_router.Router.Balancer.{SelectedEndpoint, build_selected_endpoint}
use rust_ai_router.Samples.{milli, counting, memory, config, app, context, long_endpoint}
use rust_ai_router.Samples.Encoded.{
  encoded, encoded_laws, print, parse-print, ones, pack, flatten, sample_as_object,
}

-- A request in the Anthropic format for the alias of a model, and its text.
abbrev asked : Str
asked = encoded.object (
    (bytes "model", encoded.string (bytes "gpt"))
    ∷ (bytes "system", encoded.string (bytes "s"))
    ∷ (bytes "x-sticky-session-id", encoded.string (bytes "id"))
    ∷ (bytes "top_p", encoded.number 1)
    ∷ [])

abbrev posted : HttpRequest ℕ
posted = record {
  auth = some context;
  path = bytes "/v1/messages";
  body = some (encoded.to_vec asked);
  now = from_secs 5;
  unix = 1005;
}

abbrev answering : ℕ → SelectedEndpoint ℕ → HttpRound
answering n ep = record {
  now = from_secs 10;
  unix = 1010;
  answered_at = from_secs 11;
  answer = some (200, encoded.to_vec (encoded.object []));
}

-- The same for the OpenAI interface.
abbrev plain : Str
plain = encoded.object ((bytes "model", encoded.string (bytes "gpt")) ∷ [])

abbrev plain_text : Str
plain_text = encoded.to_vec plain

abbrev plainly : HttpRequest ℕ
plainly = record posted { path = bytes "/v1/chat/completions"; body = some plain_text }

plain_short : length plain_text ≤ max_body
unfolding print ones pack flatten
plain_short = omega arith

chat_handler-sends_example :
    ((chat_handler Str config [] plainly answering 3 app).1.sent ≡ app.sent)
    ⊎ ((ctx : AuthContext ℕ) × (r : ChatRequest) × (upstream : Str) × (plainly.auth ≡ some ctx)
        × (chat_request Str config [] plainly ≡ some r)
        × (encoded.from_slice r.body_bytes ≡ some upstream)
        × (token_has_model_access config ctx.token_key (model_of upstream) ≡ true)
        × Sent
            (OfModel config (model_of upstream))
            app.sent
            (chat_handler Str config [] plainly answering 3 app).1.sent)
chat_handler-sends_example =
    chat_handler-sends encoded_laws config [] plainly answering 3 app plain_text plain refl
      plain_short (parse-print plain) (_, encoded_laws.as_object-object _)
      (record { translation = parse-print _; renamed = parse-print _ })

rewrite_request-session_example :
    get_session_id Str
      (rewrite_request config (bytes "/v1/messages") (encoded.to_vec asked, asked)).body_bytes
    ≡ none
unfolding same is_anthropic_request strip_suffix
rewrite_request-session_example =
    rewrite_request-session encoded_laws config (bytes "/v1/messages") (encoded.to_vec asked) asked
      (encoded_laws.from_utf8_lossy-to_vec asked) (parse-print asked)
      (_, encoded_laws.as_object-object _)
      (record { translation = parse-print _; renamed = parse-print _ })

member-translate_request_example :
    member (translate_request asked).0 (bytes "top_p") ≡ some (encoded.number 1)
unfolding translated_member same sample_as_object get pack flatten
member-translate_request_example = member-translate_request encoded_laws asked (bytes "top_p")

-- An answer with one choice.
abbrev said : Str
said = encoded.object (
    (bytes "content", encoded.string (bytes "hi"))
    ∷ (bytes "provider_specific_fields", encoded.null)
    ∷ [])

abbrev a_choice : Str
a_choice = encoded.object ((bytes "message", said) ∷ (bytes "token_ids", encoded.null) ∷ [])

abbrev with_choice : Str
with_choice = encoded.object (
    (bytes "choices", encoded.array (a_choice ∷ []))
    ∷ (bytes "kv_transfer_params", encoded.null)
    ∷ [])

normalize_openai_response-choice_example :
    (cs' : List Str) × (choice' : Str) × (message' : Str) × ((k : Str)
      → member (normalize_openai_response with_choice (bytes "gpt")) k ≡ (
          if contains
            (bytes "prompt_logprobs" ∷ bytes "prompt_token_ids" ∷ bytes "kv_transfer_params" ∷ [])
            k
          then none
          else if same (bytes "model") k
          then some (encoded.string (bytes "gpt"))
          else if same (bytes "choices") k
          then some (encoded.array cs')
          else member with_choice k))
    × (length cs' ≡ 1)
    × (get_elem? cs' 0 ≡ some choice')
    × ((k : Str)
        → member choice' k ≡ (
            if contains
              (bytes "stop_reason" ∷ bytes "token_ids" ∷ bytes "provider_specific_fields" ∷ [])
              k
            then none
            else if same (bytes "message") k
            then some message'
            else member a_choice k))
    × ((k : Str)
        → member message' k
          ≡ (if same (bytes "provider_specific_fields") k then none else member said k))
unfolding get same
normalize_openai_response-choice_example =
    normalize_openai_response-choice encoded_laws with_choice (encoded.array (a_choice ∷ []))
      (bytes "gpt") (a_choice ∷ []) 0 a_choice said (_, encoded_laws.as_object-object _)
      (member-object encoded_laws _ (bytes "choices")) (encoded_laws.as_array-array (a_choice ∷ []))
      refl (_, encoded_laws.as_object-object _) (member-object encoded_laws _ (bytes "message"))
      (_, encoded_laws.as_object-object _)

abbrev anthropic_client : ChatRequest
anthropic_client = record {
  upstream_path = bytes "/v1/chat/completions";
  body_bytes = [];
  model_name = bytes "gpt";
  is_stream = false;
  is_anthropic = true;
}

-- An event in two chunks.
stream_usage-events_example :
    stream_usage Str (some (bytes "data: x") ∷ none ∷ some (10 ∷ 10 ∷ []) ∷ [])
    ≡ read_events Str no_usage (bytes "data: x" ∷ [])
unfolding events_after
stream_usage-events_example =
    stream_usage-events Str (some (bytes "data: x") ∷ none ∷ some (10 ∷ 10 ∷ []) ∷ [])

abbrev long_endpoint_chosen : SelectedEndpoint ℕ
long_endpoint_chosen = build_selected_endpoint long_endpoint 0 2

abbrev client_headers : List (Str × Str)
client_headers =
    (bytes "authorization", bytes "Bearer sk-b") ∷ (bytes "user-agent", bytes "curl") ∷ []

abbrev plain_client : ChatRequest
plain_client = record anthropic_client { body_bytes = plain_text }

-- The client's own authorization does not pass.
authorization-chat_outgoing_example :
    (out : Outgoing) × (chat_outgoing Str long_endpoint_chosen plain_client client_headers
      ≡ some out)
    × (keep (λ h. eq_ignore_ascii_case h.0 (bytes "authorization")) out.headers
        ≡ (bytes "Authorization", bytes "Bearer sk-0123456789") ∷ [])
    × (out.body ≡ encoded.to_vec plain)
unfolding build_selected_endpoint
authorization-chat_outgoing_example =
    authorization-chat_outgoing long_endpoint_chosen plain_client client_headers plain
      (parse-print plain)
