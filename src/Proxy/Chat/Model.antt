-- ===== src/Proxy/Chat/Model.antt =====
-- src/proxy/handler.rs: the model that an endpoint is told is the one that was checked.
use rust_ai_router.Anthropic.{is_anthropic_request, model_of, translate_request}
use rust_ai_router.Anthropic.Request.{
  member-translate_request, translated_member, translate_request-IsObject,
}
use rust_ai_router.Auth.{AuthContext}
use rust_ai_router.Base.{
  ℕ, ◌≡◌, ◌⊎◌, inl, inr, refl, sym, ◌∙◌, ap, true, false, some, Str, bytes, same, same_iff, map_opt,
  map_or, Bool-cases, le→leb, ◌≤◌, length, Float,
}
use rust_ai_router.Config.{AppConfig, canonical_model_name, token_has_model_access}
use rust_ai_router.Json.{Json, JsonLaws, Reprints, assign}
use rust_ai_router.Json.Members.{IsObject, member-assign}
use rust_ai_router.Proxy.Body.{
  ChatRequest, read_body_and_parse, rewrite_request, translated_body, strip_base_path, max_body,
  parsed_body,
}
use rust_ai_router.Proxy.Chat.{
  HttpRequest, HttpRound, chat_request, chat_handler, proxy_request, round_of,
}
use rust_ai_router.Proxy.Handler.{ParsedBody}
use rust_ai_router.Proxy.Handler.Access.{Sent, OfModel, proxy_handler-sends}
use rust_ai_router.Proxy.State.{AppState}
use rust_ai_router.RateLimit.Store.{Governor}
use rust_ai_router.Router.Balancer.{SelectedEndpoint}
use rust_ai_router.Sync.{Redis}

-- What the rewriting of a body prints, the translation and the value with the canonical name, is
-- printed without loss.
module _ {V F : Type 0} ⦃json : Json V⦄ where
  pub record Printable (cfg : AppConfig F) (path body_bytes : Str) (v : V) : Type 0 where
    pub translation : Reprints (translate_request v).0
    pub renamed : Reprints (
        assign
          (translated_body path (body_bytes, v)).1
          (bytes "model")
          (json.string (canonical_model_name cfg (translated_body path (body_bytes, v)).2)))

module _ {V : Type 0} ⦃json : Json V⦄ (laws : JsonLaws V) where
  model_of-assign :
      (v : V) (name : Str)
      → IsObject v
      → model_of (assign v (bytes "model") (json.string name)) ≡ name
  unfolding model_of same
  model_of-assign v name h =
      rw
        (
          member-assign laws v (bytes "model") (bytes "model") (json.string name) h,
          laws.as_str-string name,
        )
        refl

  model-translate_request : (body : V) → (translate_request body).1 ≡ model_of body
  unfolding translate_request
  model-translate_request body = refl

  model_of-translated :
      (body : V) → model_of (translate_request body).0 ≡ (translate_request body).1
  unfolding model_of same translated_member
  model_of-translated body =
      rw (member-translate_request laws body (bytes "model"), laws.as_str-string (model_of body))
        (sym (model-translate_request body))

  -- The bytes, the value and the model of a translated body belong together.
  translated_body_sound :
      (path body_bytes : Str) (v : V)
      → json.from_slice body_bytes ≡ some v
      → IsObject v
      → Reprints (translate_request v).0
      → (json.from_slice (translated_body path (body_bytes, v)).0
          ≡ some (translated_body path (body_bytes, v)).1)
        × IsObject (translated_body path (body_bytes, v)).1
        × (model_of (translated_body path (body_bytes, v)).1
            ≡ (translated_body path (body_bytes, v)).2)
  unfolding translated_body
  translated_body_sound path body_bytes v parsed h printed =
      elim (Bool-cases (is_anthropic_request path)) [
        | inl e ↦
            rw (translated_body, e)
              (printed, translate_request-IsObject laws v, model_of-translated v)
        | inr e ↦ rw (translated_body, e) (parsed, h, refl)
      ]

  -- The rewritten body names the model by its canonical name.
  rewrite_request-model :
      {F : Type 0} (cfg : AppConfig F) (path body_bytes : Str) (v : V)
      → json.from_slice body_bytes ≡ some v
      → IsObject v
      → Printable cfg path body_bytes v
      → (upstream : V) × (json.from_slice (rewrite_request cfg path (body_bytes, v)).body_bytes
          ≡ some upstream)
        × (model_of upstream
            ≡ canonical_model_name cfg (rewrite_request cfg path (body_bytes, v)).model_name)
  unfolding rewrite_request
  rewrite_request-model cfg path body_bytes v parsed h p =
      let (b, w, model) = translated_body path (body_bytes, v) in
      let (read, is_object, named) =
        translated_body_sound path body_bytes v parsed h p.translation in
      let canonical = canonical_model_name cfg model in
      elim (Bool-cases (same canonical model)) [
        | inl e ↦ (w, rw e read, named ∙ sym ((same_iff canonical model).0 e))
        | inr e ↦ (
          assign w (bytes "model") (json.string canonical),
          rw e p.renamed,
          model_of-assign w canonical is_object,
        )
      ]

-- A short body that parses is rewritten.
pub chat_request-some :
    (V : Type 0) {F : Type 0} ⦃json : Json V⦄ (cfg : AppConfig F) (base_path : Str)
    (req : HttpRequest F) (body_bytes : Str) (v : V)
    → req.body ≡ some body_bytes
    → length body_bytes ≤ max_body
    → json.from_slice body_bytes ≡ some v
    → chat_request V cfg base_path req
      ≡ some (rewrite_request cfg (strip_base_path req.path base_path) (body_bytes, v))
unfolding chat_request read_body_and_parse
chat_request-some V cfg base_path req body_bytes v given short parsed =
    rw (chat_request, given, read_body_and_parse, le→leb (length body_bytes) max_body short, parsed)
      refl

-- The handler asks for the model of the rewritten request.
model_name-parsed :
    (V : Type 0) {F : Type 0} ⦃json : Json V⦄ (cfg : AppConfig F) (base_path : Str)
    (req : HttpRequest F) (r : ChatRequest) (body : ParsedBody)
    → chat_request V cfg base_path req ≡ some r
    → (proxy_request V cfg base_path req).body ≡ some body
    → body.model_name ≡ r.model_name
unfolding proxy_request parsed_body
model_name-parsed V cfg base_path req r body request is_body =
    let e : some (parsed_body V r) ≡ some body =
      sym (ap (map_opt (parsed_body V)) request) ∙ is_body in
    ap (λ o. map_or r.model_name (λ b. b.model_name) o) (sym e)

module _ {V F G R : Type 0} ⦃json : Json V⦄ ⦃fl : Float F⦄ ⦃gov : Governor G⦄ ⦃redis : Redis R⦄
    (laws : JsonLaws V) where
  -- What `proxy_handler` sends for a body that is a JSON object, where the rewriting prints it without
  -- loss: nothing; or requests with a body
  -- that names a model to which the token has access, after the translation and under its canonical
  -- name, and each to an endpoint of that very model.
  pub chat_handler-sends :
      (cfg : AppConfig F) (base_path : Str) (req : HttpRequest F)
      (world : ℕ → SelectedEndpoint F → HttpRound) (fuel : ℕ) (app : AppState F G R)
      (body_bytes : Str) (v : V)
      → req.body ≡ some body_bytes
      → length body_bytes ≤ max_body
      → json.from_slice body_bytes ≡ some v
      → IsObject v
      → Printable cfg (strip_base_path req.path base_path) body_bytes v
      → ((chat_handler V cfg base_path req world fuel app).1.sent ≡ app.sent)
        ⊎ ((ctx : AuthContext F) × (r : ChatRequest) × (upstream : V) × (req.auth ≡ some ctx)
            × (chat_request V cfg base_path req ≡ some r)
            × (json.from_slice r.body_bytes ≡ some upstream)
            × (token_has_model_access cfg ctx.token_key (model_of upstream) ≡ true)
            × Sent
                (OfModel cfg (model_of upstream))
                app.sent
                (chat_handler V cfg base_path req world fuel app).1.sent)
  unfolding chat_handler chat_request
  chat_handler-sends cfg base_path req world fuel app body_bytes v given short parsed h p =
      let r = rewrite_request cfg (strip_base_path req.path base_path) (body_bytes, v) in
      let request : chat_request V cfg base_path req ≡ some r =
        chat_request-some V cfg base_path req body_bytes v given short parsed in
      let (upstream, read, named) =
        rewrite_request-model laws cfg (strip_base_path req.path base_path) body_bytes v parsed h
          p in
      elim (proxy_handler-sends cfg (proxy_request V cfg base_path req)
        (λ n ep.
          round_of V (map_or false (λ r. r.is_stream) (chat_request V cfg base_path req))
            (world n ep))
        fuel app) [
          | inl e ↦ inl e
          | inr (ctx, body, known, is_body, granted, sent) ↦
              let name = model_name-parsed V cfg base_path req r body request is_body in
              let e : model_of upstream ≡ canonical_model_name cfg body.model_name =
                named ∙ ap (canonical_model_name cfg) (sym name) in
              inr (ctx, r, upstream, known, request, read, rw e granted, rw e sent)
        ]
