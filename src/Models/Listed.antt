-- ===== src/Models/Listed.antt =====
-- src/main.rs: which models are listed.
use rust_ai_router.Auth.{AuthContext}
use rust_ai_router.Base.{
  ℕ, ◌≡◌, refl, ap, sym, ◌∙◌, Bool, true, false, ◌&&◌, none, some, List, [], ◌∷◌, Str, bytes, same,
  same_iff, map, keep, any, contains, Bool-cases, inl, inr, Float,
}
use rust_ai_router.Base.Dict
use rust_ai_router.Config.{AppConfig, ModelConfig, token_has_model_access}
use rust_ai_router.Json.{Json, JsonLaws, member}
use rust_ai_router.Json.Members.{member-object}
use rust_ai_router.Models.{
  listed, listed_names, model_entry, tag_entry, models_body, tags_body, within_limits, list_models,
  ollama_tags,
}
use rust_ai_router.Proxy.Limits.{check_all_rate_limits}
use rust_ai_router.Proxy.State.{AppState}
use rust_ai_router.RateLimit.Store.{Governor}
use rust_ai_router.Sync.{Redis}

module _ {F : Type 0} where
  -- A test on names keeps the names that pass it.
  contains-keep :
      (p : Str → Bool) (ms : List (ModelConfig F)) (name : Str)
      → contains (map (λ m. m.name) (keep (λ m. p m.name) ms)) name
        ≡ (p name && any (λ m. same m.name name) ms)
  contains-keep p [] name = elim (Bool-cases (p name)) [ inl e ↦ rw e refl | inr e ↦ rw e refl ]
  contains-keep p (m ∷ ms) name =
      let rest = contains-keep p ms name in
      elim (Bool-cases (p m.name)) [
        | inr refused ↦ elim (Bool-cases (same m.name name)) [
          | inl e ↦
              let denied : p name ≡ false = ap p (sym ((same_iff m.name name).0 e)) ∙ refused in
              rw (refused, denied) (rest ∙ rw denied refl)
          | inr e ↦ rw (refused, e) rest
        ]
        | inl allowed ↦ elim (Bool-cases (same m.name name)) [
          | inl e ↦
              let granted : p name ≡ true = ap p (sym ((same_iff m.name name).0 e)) ∙ allowed in
              rw (allowed, granted, e) refl
          | inr e ↦ rw (allowed, e) rest
        ]
      ]

module _ {V F G R : Type 0} ⦃json : Json V⦄ ⦃fl : Float F⦄ ⦃gov : Governor G⦄ ⦃redis : Redis R⦄
    (laws : JsonLaws V) where
  -- Within the limits, both lists hold the same models, one as `data` and one as `models`: a name is
  -- among them just when a model has it and the token has access to it.
  pub list_models-ollama_tags :
      (cfg : AppConfig F) (ctx : AuthContext F) (modified_at : Str) (now unix : ℕ)
      (app : AppState F G R) (name : Str)
      → (check_all_rate_limits cfg app ctx.team ctx.token_key ctx.rpm ctx.tpm now unix).0 ≡ none
      → (names : List Str) × (v : V) × (w : V) × ((list_models cfg (some ctx) now unix app).0
          ≡ listed v)
        × (member v (bytes "data") ≡ some (json.array (map model_entry names)))
        × ((ollama_tags cfg (some ctx) modified_at now unix app).0 ≡ listed w)
        × (member w (bytes "models") ≡ some (json.array (map (tag_entry modified_at) names)))
        × (contains names name ≡ (
            token_has_model_access cfg ctx.token_key name
            && any (λ m. same m.name name) cfg.models))
  unfolding list_models ollama_tags within_limits listed_names models_body tags_body same Dict.get
  list_models-ollama_tags cfg ctx modified_at now unix app name within = (
    listed_names cfg ctx.token_key,
    models_body (listed_names cfg ctx.token_key),
    tags_body modified_at (listed_names cfg ctx.token_key),
    rw (list_models, within_limits, within) refl,
    member-object laws _ (bytes "data"),
    rw (ollama_tags, within_limits, within) refl,
    member-object laws _ (bytes "models"),
    contains-keep (token_has_model_access cfg ctx.token_key) cfg.models name,
  )
