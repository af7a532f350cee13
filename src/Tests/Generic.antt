-- ===== src/Tests/Generic.antt =====
-- src/proxy/handler.rs: `proxy_generic` on the sample configuration.
use rust_ai_router.Auth.{AuthContext}
use rust_ai_router.Base.{
  ℕ, ◌≡◌, ◌⊎◌, refl, Bool, true, false, some, [], ◌∷◌, ◌++◌, Str, bytes, from_secs, starts_with,
  contains_str, trim,
}
use rust_ai_router.Config.{canonical_model_name, token_has_model_access}
use rust_ai_router.Proxy.Body.{strip_base_path}
use rust_ai_router.Proxy.Chat.{HttpRound}
use rust_ai_router.Proxy.Generic.{
  GenericRequest, extracted, extract_body, proxy_generic, req_path_type, parse_multipart_model,
}
use rust_ai_router.Proxy.Generic.Access.{proxy_generic-sends}
use rust_ai_router.Proxy.Generic.Refusal.{Unrecorded, is_upstream, proxy_generic-refusal}
use rust_ai_router.Proxy.Handler.Access.{OfModel}
use rust_ai_router.Router.Balancer.{SelectedEndpoint}
use rust_ai_router.Samples.{milli, counting, memory, config, app, context}
use rust_ai_router.Samples.Encoded.{encoded}

abbrev uploading : Str → GenericRequest ℕ
uploading path = record {
  auth = some context;
  path_and_query = path;
  content_type = bytes "text/plain";
  body = some (bytes "x");
  now = from_secs 5;
  unix = 1005;
}

abbrev answering : SelectedEndpoint ℕ → HttpRound
answering ep = record {
  now = from_secs 10;
  unix = 1010;
  answered_at = from_secs 11;
  answer = some (200, bytes "x");
}

proxy_generic-sends_example :
    ((proxy_generic Str config [] (uploading (bytes "/v1/x")) answering app).1.sent ≡ app.sent)
    ⊎ ((ctx : AuthContext ℕ) × (body : Str) × (model_name : Str) × (is_stream : Bool)
        × (s : SelectedEndpoint ℕ) × ((uploading (bytes "/v1/x")).auth ≡ some ctx)
        × (starts_with (strip_base_path (bytes "/v1/x") []) (bytes "/v1/") ≡ true)
        × (extract_body Str config
              (strip_base_path (bytes "/v1/x") [])
              (bytes "text/plain")
              (some (bytes "x"))
            ≡ extracted body model_name is_stream)
        × (token_has_model_access config ctx.token_key (canonical_model_name config model_name)
            ≡ true)
        × OfModel config (canonical_model_name config model_name) s
        × ((proxy_generic Str config [] (uploading (bytes "/v1/x")) answering app).1.sent
            ≡ s ∷ app.sent))
proxy_generic-sends_example =
    proxy_generic-sends Str config [] (uploading (bytes "/v1/x")) answering app

-- A path that is not below /v1/.
scanned : is_upstream (proxy_generic Str config [] (uploading (bytes "/x")) answering app).0 ≡ false
unfolding is_upstream proxy_generic strip_base_path
scanned = refl

proxy_generic-refusal_example :
    Unrecorded (proxy_generic Str config [] (uploading (bytes "/x")) answering app).1 app
proxy_generic-refusal_example =
    proxy_generic-refusal Str config [] (uploading (bytes "/x")) answering app scanned

embedding_path : req_path_type (bytes "/v1/embeddings") ≡ bytes "embedding"
unfolding req_path_type contains_str
embedding_path = refl

-- A form with the fields that a browser sends.
abbrev form : Str
form =
    bytes "--b"
    ++ (13 ∷ 10 ∷ [])
    ++ bytes "Content-Disposition: form-data; name="
    ++ (34 ∷ bytes "model")
    ++ (34 ∷ 13 ∷ 10 ∷ 13 ∷ 10 ∷ [])
    ++ bytes " whisper "
    ++ (13 ∷ 10 ∷ [])
    ++ bytes "--b--"

form_field :
    parse_multipart_model form (bytes "multipart/form-data; boundary=b") ≡ some (bytes "whisper")
unfolding parse_multipart_model contains_str trim
form_field = refl
