-- ===== src/Proxy/Generic/Access.antt =====
-- src/proxy/handler.rs: which requests `proxy_generic` sends on, and what a refused one leaves.
use rust_ai_router.Auth.{AuthContext}
use rust_ai_router.Base.{
  ◌≡◌, ◌⊎◌, inl, inr, refl, ap, ◌∙◌, Bool, true, some, ◌∷◌, Str, bytes, get_elem?, is_empty, length,
  starts_with, Bool-cases, Option-cases, arith, Float,
}
use rust_ai_router.Config.{AppConfig, find_model, canonical_model_name, token_has_model_access}
use rust_ai_router.Json.{Json}
use rust_ai_router.Proxy.Attempt.{Prepared, consume_usage}
use rust_ai_router.Proxy.Body.{strip_base_path}
use rust_ai_router.Proxy.Chat.{HttpRound}
use rust_ai_router.Proxy.Generic.{
  GenericRequest, GenericReply, generic_prepared, Extracted, refused, extracted, extract_body,
  note_failure, note_success, stream_answered, regular_answered, relay, dispatch, proxy_generic,
}
use rust_ai_router.Proxy.Handler.Access.{OfModel, sent-check_all_rate_limits}
use rust_ai_router.Proxy.Limits.{check_all_rate_limits}
use rust_ai_router.Proxy.State.{AppState}
use rust_ai_router.RateLimit.Store.{Governor}
use rust_ai_router.Router.Balancer.{
  Counters, SelectedEndpoint, build_selected, pick_weighted, next, select_endpoint,
}
use rust_ai_router.Sync.{Redis}

module _ {F : Type 0} ⦃fl : Float F⦄ where
  select_endpoint-OfModel :
      (cfg : AppConfig F) (counters : Counters) (model : Str) (s : SelectedEndpoint F)
      → (select_endpoint cfg counters model).0 ≡ some s
      → OfModel cfg model s
  unfolding select_endpoint pick_weighted build_selected
  select_endpoint-OfModel cfg counters model s e = elim (Option-cases (find_model cfg model)) [
    | inl unknown ↦ absurd (ground (arith, unknown))
    | inr (m, known) ↦ elim (Bool-cases (is_empty m.endpoints)) [
      | inl empty ↦ absurd (ground (arith, known, empty))
      | inr filled ↦
          let idx = (next counters m.name (length m.endpoints)).0 in
          elim (Option-cases (get_elem? m.endpoints idx)) [
            | inl past ↦ absurd (ground (arith, known, filled, past))
            | inr (ep, at_idx) ↦ (m, idx, ep, known, at_idx, ground (arith, known, filled, at_idx))
          ]
    ]
  ]

module _ {F : Type 0} where
  pub Extracted-cases :
      (x : Extracted F)
      → ((reply : GenericReply F) × (x ≡ refused reply))
        ⊎ ((body : Str) × (model_name : Str) × (is_stream : Bool) × (x
              ≡ extracted body model_name is_stream))
  Extracted-cases (refused reply) = inl (reply, refl)
  Extracted-cases (extracted body model_name is_stream) = inr (body, model_name, is_stream, refl)

module _ (V : Type 0) {F G R : Type 0} ⦃json : Json V⦄ ⦃fl : Float F⦄ ⦃gov : Governor G⦄
    ⦃redis : Redis R⦄ where
  sent-relay :
      (cfg : AppConfig F) (p : Prepared) (ep : SelectedEndpoint F) (r : HttpRound)
      (app : AppState F G R)
      → (relay V cfg p ep r app).1.sent ≡ ep ∷ app.sent
  unfolding relay stream_answered regular_answered note_failure note_success consume_usage
  sent-relay cfg p ep r app = grind arith

  sent-dispatch :
      (cfg : AppConfig F) (ctx : AuthContext F) (model_name : Str) (is_stream : Bool)
      (world : SelectedEndpoint F → HttpRound) (app : AppState F G R)
      → ((dispatch V cfg ctx model_name is_stream world app).1.sent ≡ app.sent)
        ⊎ ((s : SelectedEndpoint F) × (token_has_model_access cfg ctx.token_key
                (canonical_model_name cfg model_name)
              ≡ true)
            × OfModel cfg (canonical_model_name cfg model_name) s
            × ((dispatch V cfg ctx model_name is_stream world app).1.sent ≡ s ∷ app.sent))
  unfolding dispatch
  sent-dispatch cfg ctx model_name is_stream world app =
      let model = canonical_model_name cfg model_name in
      elim (Bool-cases (token_has_model_access cfg ctx.token_key model)) [
        | inr denied ↦ inl (rw (dispatch, denied) refl)
        | inl granted ↦ elim (Option-cases (select_endpoint cfg app.router model).0) [
          | inl none_left ↦ inl (rw (dispatch, granted, none_left) refl)
          | inr (s, chosen) ↦ inr (
            s,
            granted,
            select_endpoint-OfModel cfg app.router model s chosen,
            rw (dispatch, granted, chosen)
                (sent-relay cfg (generic_prepared ctx model is_stream) s (world s)
                  (record app { router = (select_endpoint cfg app.router model).1 })),
          )
        ]
      ]

  -- What `proxy_generic` sends: nothing; or one request, where the caller is authenticated, the path
  -- is below /v1/, `extract_body` reads the body and gives a model for it (which the body need not
  -- name), the token has access to that model under its canonical name, and the endpoint is one of
  -- that model.
  pub proxy_generic-sends :
      (cfg : AppConfig F) (base_path : Str) (req : GenericRequest F)
      (world : SelectedEndpoint F → HttpRound) (app : AppState F G R)
      → ((proxy_generic V cfg base_path req world app).1.sent ≡ app.sent)
        ⊎ ((ctx : AuthContext F) × (body : Str) × (model_name : Str) × (is_stream : Bool)
            × (s : SelectedEndpoint F) × (req.auth ≡ some ctx)
            × (starts_with (strip_base_path req.path_and_query base_path) (bytes "/v1/") ≡ true)
            × (extract_body V cfg
                  (strip_base_path req.path_and_query base_path)
                  req.content_type
                  req.body
                ≡ extracted body model_name is_stream)
            × (token_has_model_access cfg ctx.token_key (canonical_model_name cfg model_name)
                ≡ true)
            × OfModel cfg (canonical_model_name cfg model_name) s
            × ((proxy_generic V cfg base_path req world app).1.sent ≡ s ∷ app.sent))
  unfolding proxy_generic
  proxy_generic-sends cfg base_path req world app = elim (Option-cases req.auth) [
    | inl e ↦ inl (rw (proxy_generic, e) refl)
    | inr (ctx, known) ↦
        let req_path = strip_base_path req.path_and_query base_path in
        let limits =
          check_all_rate_limits cfg app ctx.team ctx.token_key ctx.rpm ctx.tpm req.now req.unix in
        let kept =
          sent-check_all_rate_limits cfg app ctx.team ctx.token_key ctx.rpm ctx.tpm req.now
            req.unix in
        elim (Bool-cases (starts_with req_path (bytes "/v1/"))) [
          | inr outside ↦ inl (rw (proxy_generic, known, outside) refl)
          | inl below ↦ elim (Option-cases limits.0) [
            | inr (rl, over) ↦ inl (rw (proxy_generic, known, below, over) kept)
            | inl within ↦
                elim (Extracted-cases (extract_body V cfg req_path req.content_type req.body)) [
                  | inl (reply, e) ↦ inl (rw (proxy_generic, known, below, within, e) kept)
                  | inr (body, model_name, is_stream, e) ↦
                      elim (sent-dispatch cfg ctx model_name is_stream world limits.1) [
                        | inl unsent ↦
                            inl (rw (proxy_generic, known, below, within, e) (unsent ∙ kept))
                        | inr (s, granted, of_model, sent) ↦ inr (
                          ctx,
                          body,
                          model_name,
                          is_stream,
                          s,
                          known,
                          below,
                          e,
                          granted,
                          of_model,
                          rw (proxy_generic, known, below, within, e) (sent ∙ ap (λ l. s ∷ l) kept),
                        )
                      ]
                ]
          ]
        ]
  ]
