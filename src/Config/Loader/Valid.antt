-- ===== src/Config/Loader/Valid.antt =====
-- What `validate_config` guarantees about the configuration that the program starts with.
use rust_ai_router.Base.{
  ℕ, zero, suc, ◌<◌, ◌≡◌, refl, ◌↔◌, true, false, some, List, [], ◌∷◌, map, Str, length, get_elem?,
  get_elem?_lt, get_or, ◌%◌, is_empty, contains, arith, find-place, Float,
}
use native.Mathlib.Nat.{mod-lt}
use rust_ai_router.Base.Dict.{get}
use rust_ai_router.Config.{AppConfig, ModelConfig, TokenConfig, find_model, answers_to}
use rust_ai_router.Config.Loader.{
  Loaded, ok, bail, validate_tokens, validate_models, validate_config, ◌>>◌,
}
use rust_ai_router.Router.Balancer.{
  Counters, SelectedEndpoint, select_endpoint, pick_weighted, build_selected,
  build_selected_endpoint, next,
}

-- Each token belongs to a known team.
abbrev pub TeamsKnown : List Str → List TokenConfig → Type 0
TeamsKnown names tokens =
    (i : ℕ) (t : TokenConfig) → get_elem? tokens i ≡ some t → contains names t.team ≡ true

-- Each model has an endpoint.
abbrev pub Served : {F : Type 0} → List (ModelConfig F) → Type 0
Served {F = F} models =
    (i : ℕ) (m : ModelConfig F) → get_elem? models i ≡ some m → 0 < length m.endpoints

tokens_known :
    (names : List Str) (tokens : List TokenConfig)
    → validate_tokens names tokens ≡ ok tt
    → TeamsKnown names tokens
unfolding validate_tokens
tokens_known names [] h i t e = absurd (ground arith)
tokens_known names (token ∷ tokens) h zero t e = ground arith
tokens_known names (token ∷ tokens) h (suc i) t e = tokens_known names tokens (ground arith) i t e

known_tokens :
    (names : List Str) (tokens : List TokenConfig)
    → TeamsKnown names tokens
    → validate_tokens names tokens ≡ ok tt
unfolding validate_tokens
known_tokens names [] h = refl
known_tokens names (token ∷ tokens) h =
    let here = h 0 token refl in
    let rest = known_tokens names tokens (λ i. h (suc i)) in ground arith

both : (a b : Loaded (Unit {0})) → a >> b ≡ ok tt → (a ≡ ok tt) × (b ≡ ok tt)
both (ok tt) b h = (refl, h)
both (bail e) b h = absurd (ground arith)

module _ {F : Type 0} where
  models-Served : (models : List (ModelConfig F)) → validate_models models ≡ ok tt → Served models
  unfolding validate_models
  models-Served [] h i m e = absurd (ground arith)
  models-Served (model ∷ models) h zero m e = ground arith
  models-Served (model ∷ models) h (suc i) m e = models-Served models (ground arith) i m e

  Served-models : (models : List (ModelConfig F)) → Served models → validate_models models ≡ ok tt
  unfolding validate_models
  Served-models [] h = refl
  Served-models (model ∷ models) h =
      let here = h 0 model refl in let rest = Served-models models (λ i. h (suc i)) in ground arith

  -- A configuration is accepted exactly when each token names a team that is defined and each
  -- model has at least one endpoint.
  pub validate_config_iff :
      (cfg : AppConfig F)
      → (validate_config cfg ≡ ok tt)
        ↔ (TeamsKnown (map (λ t. t.name) cfg.teams) cfg.tokens × Served cfg.models)
  unfolding validate_config
  validate_config_iff cfg =
      let names = map (λ t. t.name) cfg.teams in
      (
        (λ h.
            let (first, second) = both _ _ h in
            (tokens_known names cfg.tokens first, models-Served cfg.models second)),
        (λ (known, served).
            rw (known_tokens names cfg.tokens known, Served-models cfg.models served)),
      )

is_empty-pos {ℓ} : {A : Type ℓ} (xs : List A) → 0 < length xs → is_empty xs ≡ false
is_empty-pos [] h = absurd (omega arith)
is_empty-pos (x ∷ xs) h = refl

module _ {F : Type 0} ⦃fl : Float F⦄ where
  -- Under an accepted configuration, a request for a known model always gets an endpoint.
  pub validate_config-serves :
      (cfg : AppConfig F) (counters : Counters) (name : Str) (m : ModelConfig F)
      → validate_config cfg ≡ ok tt
      → find_model cfg name ≡ some m
      → (s : SelectedEndpoint F) × ((select_endpoint cfg counters name).0 ≡ some s)
  unfolding find_model select_endpoint pick_weighted next build_selected
  validate_config-serves cfg counters name m valid e =
      let (i, at_i) = find-place (answers_to name) cfg.models m e in
      let served = ((validate_config_iff cfg).0 valid).1 i m at_i in
      let count = get_or (get counters m.name) 0 in
      let (ep, here) =
        get_elem?_lt m.endpoints (count % length m.endpoints)
          (omega (arith, mod-lt count served)) in
      let nonempty = is_empty-pos m.endpoints served in
      (
        build_selected_endpoint ep (count % length m.endpoints) (length m.endpoints),
        rw (select_endpoint, e, nonempty, here),
      )
