-- ===== src/Proxy/Replies/Errors.antt =====
-- src/proxy/handler.rs and src/utils.rs: what a client is told that gets no answer of an endpoint.
use rust_ai_router.Base.{
  ℕ, ◌≤◌, ◌<◌, ◌==◌, ◌≡◌, refl, ◌∙◌, Bool, true, false, none, some, [], ◌∷◌, Str, bytes, same, any,
  Bool-cases, inl, inr, arith, if◌then◌else◌, to_string,
}
use rust_ai_router.Base.Dict
use rust_ai_router.Base.Dict.{Dict}
use rust_ai_router.Json.{Json, JsonLaws, Reprints, member, str_member}
use rust_ai_router.Json.Members.{member-object}
use rust_ai_router.Proxy.Attempt.{
  Reply, bad_request, unauthorized, forbidden, all_banned, no_endpoint, limited, relayed,
  last_error, upstream_error, all_failed,
}
use rust_ai_router.Proxy.Replies.{
  HttpReply, error_value, json_error, insert_headers, scope_of, rate_limit_response, chat_reply,
  limit_headers,
}
use rust_ai_router.Proxy.Replies.Shown.{get-insert_headers, last_value-absent}
use rust_ai_router.RateLimit.Store.{RateLimitResult}
use rust_ai_router.Router.Balancer.{SelectedEndpoint}

-- A reply that the router makes itself, of a body that it could read.
abbrev pub is_refusal : {F : Type 0} → Reply F → Bool
is_refusal bad_request = false
is_refusal (relayed ep status) = false
is_refusal (last_error ep status) = false
is_refusal r = true

module _ (V : Type 0) ⦃json : Json V⦄ where
  -- An error in the format of the OpenAI interface.
  pub record IsError (out : HttpReply) : Type 0 where
    pub value : V
    pub error : V
    pub code : Str
    pub body : json.from_slice out.body ≡ some value
    pub has_error : member value (bytes "error") ≡ some error
    pub has_code : str_member error (bytes "code") ≡ some code
    pub status : (400 ≤ out.status) × (out.status < 600)
    pub is_json : Dict.get out.headers (bytes "content-type") ≡ some (bytes "application/json")
    pub challenge :
        Dict.get out.headers (bytes "www-authenticate")
        ≡ (if out.status == 401 then some (bytes "Bearer") else none)

module _ {V : Type 0} ⦃json : Json V⦄ (laws : JsonLaws V) where
  error_value-Reprints :
      (message err_type code : Str) → Reprints (error_value {V = V} message err_type code)
  error_value-Reprints message err_type code = laws.from_slice-to_vec (bytes "error") (
      (bytes "message", some message)
      ∷ (bytes "type", some err_type)
      ∷ (bytes "param", none)
      ∷ (bytes "code", some code)
      ∷ [])

  code_of_error :
      (message err_type code : Str)
      → (error : V) × (member (error_value message err_type code) (bytes "error") ≡ some error)
        × (str_member error (bytes "code") ≡ some code)
  unfolding same Dict.get
  code_of_error message err_type code = (
    _,
    member-object laws _ (bytes "error"),
    rw (member-object laws _ (bytes "code")) (laws.as_str-string code),
  )

  pub json_error-IsError :
      (status : ℕ) (message err_type code : Str)
      → (400 ≤ status) × (status < 600)
      → IsError V (json_error V status message err_type code)
  unfolding json_error Dict.get Dict.put same
  json_error-IsError status message err_type code range =
      let (error, has_error, has_code) = code_of_error message err_type code in
      record {
        value = error_value message err_type code;
        error = error;
        code = code;
        body = error_value-Reprints message err_type code;
        has_error = has_error;
        has_code = has_code;
        status = range;
        is_json = elim (Bool-cases (status == 401)) [ inl e ↦ rw e refl | inr e ↦ rw e refl ];
        challenge = elim (Bool-cases (status == 401)) [ inl e ↦ rw e refl | inr e ↦ rw e refl ];
      }

  -- A header of another name than those of a limit.
  get-limited :
      (is_header_value : Str → Bool) (limit retry name : Str)
      → any (λ h. same h.0 name) (limit_headers limit retry) ≡ false
      → Dict.get
          (insert_headers is_header_value
            ((bytes "content-type", bytes "application/json") ∷ [])
            (limit_headers limit retry))
          name
        ≡ (if same (bytes "content-type") name then some (bytes "application/json") else none)
  unfolding Dict.get
  get-limited is_header_value limit retry name apart =
      get-insert_headers is_header_value ((bytes "content-type", bytes "application/json") ∷ [])
        (limit_headers limit retry) name
      ∙ rw (last_value-absent is_header_value (limit_headers limit retry) name apart) refl

  pub rate_limit_response-IsError :
      {F : Type 0} (is_header_value : Str → Bool) (tenths : F → Str) (rl : RateLimitResult F)
      (scope : Str)
      → IsError V (rate_limit_response V is_header_value tenths rl scope)
  unfolding rate_limit_response same
  rate_limit_response-IsError is_header_value tenths rl scope =
      let code = bytes "rate_limit_exceeded" in
      let limit = to_string rl.limit in
      let retry = tenths rl.reset_after_secs in
      let (error, has_error, has_code) = code_of_error _ code code in
      record {
        value = _;
        error = error;
        code = code;
        body = error_value-Reprints _ code code;
        has_error = has_error;
        has_code = has_code;
        status = omega arith;
        is_json = get-limited is_header_value limit retry (bytes "content-type") refl;
        challenge = get-limited is_header_value limit retry (bytes "www-authenticate") refl;
      }

  -- With the laws of serde_json: a client that gets no answer of an endpoint, though its body was
  -- read, gets an error in the format of the OpenAI interface: a status from 400 to 599, and JSON
  -- whose `error` has a code as text. `WWW-Authenticate` is there just with the status 401.
  pub chat_reply-IsError :
      {F : Type 0} (is_header_value : Str → Bool) (tenths : F → Str) (team problem failure : Str)
      (answer : Bool → SelectedEndpoint F → ℕ → HttpReply) (r : Reply F)
      → is_refusal r ≡ true
      → IsError V (chat_reply V is_header_value tenths team problem failure answer r)
  unfolding chat_reply
  chat_reply-IsError is_header_value tenths team problem failure answer bad_request h = cc
  chat_reply-IsError is_header_value tenths team problem failure answer unauthorized h =
      json_error-IsError 401 _ _ _ (omega arith)
  chat_reply-IsError is_header_value tenths team problem failure answer (forbidden m) h =
      json_error-IsError 403 _ _ _ (omega arith)
  chat_reply-IsError is_header_value tenths team problem failure answer (all_banned m) h =
      json_error-IsError 503 _ _ _ (omega arith)
  chat_reply-IsError is_header_value tenths team problem failure answer (no_endpoint m) h =
      json_error-IsError 503 _ _ _ (omega arith)
  chat_reply-IsError is_header_value tenths team problem failure answer (limited scope rl) h =
      rate_limit_response-IsError is_header_value tenths rl (scope_of team scope)
  chat_reply-IsError is_header_value tenths team problem failure answer (relayed ep status) h = cc
  chat_reply-IsError is_header_value tenths team problem failure answer (last_error ep status) h =
      cc
  chat_reply-IsError is_header_value tenths team problem failure answer upstream_error h =
      json_error-IsError 502 _ _ _ (omega arith)
  chat_reply-IsError is_header_value tenths team problem failure answer all_failed h =
      json_error-IsError 503 _ _ _ (omega arith)
