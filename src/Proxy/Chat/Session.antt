-- ===== src/Proxy/Chat/Session.antt =====
-- src/proxy/handler.rs: the session that `proxy_handler` finds in a body.
use rust_ai_router.Anthropic.{is_anthropic_request, translate_request}
use rust_ai_router.Anthropic.Request.{
  member-translate_request, translated_member, translate_request-IsObject,
}
use rust_ai_router.Base.{
  ◌≡◌, refl, inl, inr, ◌∙◌, none, some, Str, bytes, same, from_utf8_lossy, if◌then◌else◌,
  Bool-cases,
}
use rust_ai_router.Config.{AppConfig, canonical_model_name}
use rust_ai_router.Json.{Json, JsonLaws, Reprints, assign, str_member}
use rust_ai_router.Json.Members.{IsObject, member-assign}
use rust_ai_router.Proxy.Chat.Model.{Printable}
use rust_ai_router.Proxy.Body.{rewrite_request, translated_body, get_session_id}

abbrev pub session_key : Str
session_key = bytes "x-sticky-session-id"

module _ {V : Type 0} ⦃json : Json V⦄ (laws : JsonLaws V) where
  session-to_vec :
      (v : V) → Reprints v → get_session_id V (json.to_vec v) ≡ str_member v session_key
  unfolding get_session_id
  session-to_vec v printed = rw (laws.from_utf8_lossy-to_vec v, printed) refl

  session-given :
      (body_bytes : Str) (v : V)
      → from_utf8_lossy body_bytes ≡ body_bytes
      → json.from_slice body_bytes ≡ some v
      → get_session_id V body_bytes ≡ str_member v session_key
  unfolding get_session_id
  session-given body_bytes v text parsed = rw (get_session_id, text, parsed) refl

  session-assign :
      (v : V) (name : Str)
      → IsObject v
      → str_member (assign v (bytes "model") (json.string name)) session_key
        ≡ str_member v session_key
  unfolding same
  session-assign v name h =
      rw (member-assign laws v (bytes "model") session_key (json.string name) h) refl

  session-translated : (v : V) → str_member (translate_request v).0 session_key ≡ none
  unfolding translated_member same
  session-translated v = rw (member-translate_request laws v session_key) refl

  -- The session in the value and the bytes of a translated body.
  translated_body-session :
      (path body_bytes : Str) (v : V)
      → from_utf8_lossy body_bytes ≡ body_bytes
      → json.from_slice body_bytes ≡ some v
      → IsObject v
      → Reprints (translate_request v).0
      → (str_member (translated_body path (body_bytes, v)).1 session_key
          ≡ (if is_anthropic_request path then none else str_member v session_key))
        × IsObject (translated_body path (body_bytes, v)).1
        × (get_session_id V (translated_body path (body_bytes, v)).0
            ≡ (if is_anthropic_request path then none else str_member v session_key))
  unfolding translated_body
  translated_body-session path body_bytes v text parsed h printed =
      elim (Bool-cases (is_anthropic_request path)) [
        | inl e ↦
            rw (translated_body, e)
              (
                session-translated v,
                translate_request-IsObject laws v,
                session-to_vec (translate_request v).0 printed ∙ session-translated v,
              )
        | inr e ↦ rw (translated_body, e) (refl, h, session-given body_bytes v text parsed)
      ]

  -- Whatever the rewriting, the session of a request is the one that its body names, where the body
  -- is a JSON object in UTF-8 that the rewriting prints without loss. A request in the Anthropic format has no session at all: the
  -- translation drops it before it is read.
  pub rewrite_request-session :
      {F : Type 0} (cfg : AppConfig F) (path body_bytes : Str) (v : V)
      → from_utf8_lossy body_bytes ≡ body_bytes
      → json.from_slice body_bytes ≡ some v
      → IsObject v
      → Printable cfg path body_bytes v
      → get_session_id V (rewrite_request cfg path (body_bytes, v)).body_bytes
        ≡ (if is_anthropic_request path then none else str_member v session_key)
  unfolding rewrite_request
  rewrite_request-session cfg path body_bytes v text parsed h p =
      let (b, w, model) = translated_body path (body_bytes, v) in
      let (kept, is_object, found) =
        translated_body-session path body_bytes v text parsed h p.translation in
      let canonical = canonical_model_name cfg model in
      elim (Bool-cases (same canonical model)) [
        | inl e ↦ rw e found
        | inr e ↦ rw e (
            session-to_vec (assign w (bytes "model") (json.string canonical)) p.renamed
            ∙ session-assign w canonical is_object
            ∙ kept)
      ]
