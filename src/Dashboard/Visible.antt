-- ===== src/Dashboard/Visible.antt =====
-- src/health/dashboard.rs: what a report shows to whom, and what it leaves as it is.
use rust_ai_router.Auth.{AuthContext}
use rust_ai_router.Base.{
  ℕ, ◌≡◌, refl, ◌∙◌, Bool, false, not, ◌||◌, none, List, [], ◌∷◌, ◌++◌, Str, bytes, contains, any,
  keep, map_or, Bool-cases, inl, inr, arith, Float,
}
use rust_ai_router.Config.{AppConfig, ModelConfig, EndpointConfig, token_has_model_access}
use rust_ai_router.Dashboard.{
  report_stats, stats_of_endpoints, stats_of_models, stats_json, remaining_of,
}
use rust_ai_router.Keys.{team_limit_key}
use rust_ai_router.Proxy.Limits.{team_limits_of}
use rust_ai_router.Proxy.State.{AppState}
use rust_ai_router.RateLimit.Store.{Governor}

any-append {ℓ} :
    {A : Type ℓ} (p : A → Bool) (xs ys : List A) → any p (xs ++ ys) ≡ (any p xs || any p ys)
any-append p [] ys = refl
any-append p (x ∷ xs) ys = ground (arith, any-append p xs ys)

module _ {F : Type 0} where
  -- What is kept passes the test.
  any-keep-not :
      (p : Str → Bool) (ms : List (ModelConfig F))
      → any (λ m. not (p m.name)) (keep (λ m. p m.name) ms) ≡ false
  any-keep-not p [] = refl
  any-keep-not p (m ∷ ms) = elim (Bool-cases (p m.name)) [
    | inl e ↦ rw (e, e) (any-keep-not p ms)
    | inr e ↦ rw (e) (any-keep-not p ms)
  ]

module _ {F G R : Type 0} ⦃fl : Float F⦄ ⦃gov : Governor G⦄ where
  -- Entries are those of the models that are given.
  stats_of_endpoints-hidden :
      (hides : Str → Bool) (mask : Str → Str) (model : Str) (eps : List (EndpointConfig F))
      (now unix : ℕ) (app : AppState F G R)
      → hides model ≡ false
      → any (λ e. hides e.model) (stats_of_endpoints mask model eps now unix app).0 ≡ false
  unfolding stats_of_endpoints report_stats
  stats_of_endpoints-hidden hides mask model [] now unix app h = refl
  stats_of_endpoints-hidden hides mask model (ep ∷ eps) now unix app h = rw h (
      stats_of_endpoints-hidden hides mask model eps now unix
        (report_stats mask model ep now unix app).1 h)

  stats_of_models-hidden :
      (hides : Str → Bool) (mask : Str → Str) (ms : List (ModelConfig F)) (now unix : ℕ)
      (app : AppState F G R)
      → any (λ m. hides m.name) ms ≡ false
      → any (λ e. hides e.model) (stats_of_models mask ms now unix app).0 ≡ false
  unfolding stats_of_models
  stats_of_models-hidden hides mask [] now unix app h = refl
  stats_of_models-hidden hides mask (m ∷ ms) now unix app h =
      let (some_of, app') = stats_of_endpoints mask m.name m.endpoints now unix app in
      any-append (λ e. hides e.model) some_of (stats_of_models mask ms now unix app').0
      ∙ rw
          (stats_of_endpoints-hidden hides mask m.name m.endpoints now unix app (ground (arith, h)))
          (stats_of_models-hidden hides mask ms now unix app' (ground (arith, h)))

  -- A token without access to all models is shown no endpoint of a model that it has no access to,
  -- and neither the other tokens nor the other teams.
  pub stats_json-visible :
      (mask : Str → Str) (cfg : AppConfig F) (auth : AuthContext F) (now unix : ℕ)
      (app : AppState F G R)
      → contains auth.models (bytes "*") ≡ false
      → (any
            (λ e. not (token_has_model_access cfg auth.token_key e.model))
            (stats_json mask cfg auth now unix app).0.endpoints
          ≡ false)
        × ((stats_json mask cfg auth now unix app).0.all_tokens ≡ none)
        × ((stats_json mask cfg auth now unix app).0.all_teams ≡ none)
  unfolding stats_json
  stats_json-visible mask cfg auth now unix app h =
      let team_tpm = map_or 0 (λ l. l.tpm) (team_limits_of cfg auth.team) in
      let app1 = (remaining_of app auth.token_key auth.tpm now unix).1 in
      let app2 = (remaining_of app1 (team_limit_key auth.team) team_tpm now unix).1 in
      rw h (
        stats_of_models-hidden (λ n. not (token_has_model_access cfg auth.token_key n)) mask
            (keep (λ m. token_has_model_access cfg auth.token_key m.name) cfg.models) now unix app2
            (any-keep-not (token_has_model_access cfg auth.token_key) cfg.models),
        refl,
        refl,
      )
