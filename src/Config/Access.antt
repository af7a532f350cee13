-- ===== src/Config/Access.antt =====
-- Which token may use which model.
use rust_ai_router.Base.{
  ◌≡◌, refl, ◌↔◌, inl, inr, Bool, true, ◌||◌, Option, none, some, List, [], ◌∷◌, Str, bytes, same,
  any, find, get_or, or_else, map_opt, Some, any-Some, Some-any, arith, ◌∙◌, sym, ap, if◌then◌else◌,
  Float, Option-cases,
}
use rust_ai_router.Config.{
  AppConfig, TokenConfig, TeamConfig, resolve_token, token_has_model_access,
}

-- A list of model names that holds the model, or the wildcard.
abbrev pub Covers : List Str → Str → Type 0
Covers names model = Some (λ m. same m (bytes "*") || same m model) names

module _ {F : Type 0} where
  -- What the configuration grants a token: by its own list of models, or else by its team's, or
  -- else, where its team is unknown, everything.
  pub data Grants (cfg : AppConfig F) (token : TokenConfig) (model : Str) : Type 0 where
    own :
        (names : List Str) → token.models ≡ some names → Covers names model → Grants cfg token model
    by_team :
        (team : TeamConfig F)
        → token.models ≡ none
        → find (λ t. same t.name token.team) cfg.teams ≡ some team
        → Covers team.models model
        → Grants cfg token model
    teamless :
        token.models ≡ none
        → find (λ t. same t.name token.team) cfg.teams ≡ none
        → Grants cfg token model

any-or {ℓ} :
    {A : Type ℓ} (p q : A → Bool) (xs : List A)
    → any (λ x. p x || q x) xs ≡ (if any p xs then true else any q xs)
any-or p q [] = refl
any-or p q (x ∷ xs) = ground (arith, any-or p q xs)

-- The two tests of the source are one.
covers :
    (names : List Str) (model : Str)
    → (if any (λ m. same m (bytes "*")) names then true else any (λ m. same m model) names) ≡ true
      ↔ Covers names model
covers names model =
    let both = any-or (λ m. same m (bytes "*")) (λ m. same m model) names in
    ((λ h. any-Some _ names (both ∙ h)), (λ c. sym both ∙ Some-any _ names c))

star : (model : Str) → Covers (bytes "*" ∷ []) model
unfolding same
star model = (0, bytes "*", refl, refl)

module _ {F : Type 0} where
  -- The team of a token.
  abbrev team_of : AppConfig F → TokenConfig → Option (TeamConfig F)
  team_of cfg token = find (λ t. same t.name token.team) cfg.teams

  -- The list that decides.
  abbrev names_of : AppConfig F → TokenConfig → List Str
  names_of cfg token =
      get_or (or_else token.models (map_opt (λ t. t.models) (team_of cfg token))) (bytes "*" ∷ [])

  Grants-Covers :
      (cfg : AppConfig F) (token : TokenConfig) (model : Str)
      → Grants cfg token model
      → Covers (names_of cfg token) model
  Grants-Covers cfg token model (own names e c) = rw (e) c
  Grants-Covers cfg token model (by_team team e found c) = rw (e, found) c
  Grants-Covers cfg token model (teamless e lost) = rw (e, lost) (star model)

  Covers-Grants :
      (cfg : AppConfig F) (token : TokenConfig) (model : Str)
      → Covers (names_of cfg token) model
      → Grants cfg token model
  Covers-Grants cfg token model c = elim (Option-cases token.models) [
    | inr (names, e) ↦ own names e (rw (← by_own names e) c)
    | inl e ↦ elim (Option-cases (team_of cfg token)) [
      | inr (team, found) ↦ by_team team e found (rw (← by_its_team team e found) c)
      | inl lost ↦ teamless e lost
    ]
  ]
    where
      by_own : (names : List Str) → token.models ≡ some names → names_of cfg token ≡ names
      by_own names e = rw (e)

      by_its_team :
          (team : TeamConfig F)
          → token.models ≡ none
          → team_of cfg token ≡ some team
          → names_of cfg token ≡ team.models
      by_its_team team e found = rw (e, found)

module _ {F : Type 0} ⦃fl : Float F⦄ where
  decided :
      (cfg : AppConfig F) (key model : Str) (token : TokenConfig)
      → find (λ t. same t.key key) cfg.tokens ≡ some token
      → token_has_model_access cfg key model ≡ (
          if any (λ m. same m (bytes "*")) (names_of cfg token)
          then true
          else any (λ m. same m model) (names_of cfg token))
  unfolding token_has_model_access resolve_token
  decided cfg key model token e = grind arith

  -- A known token has access to a model exactly when the configuration grants it; an unknown key
  -- has access to nothing.
  pub token_has_model_access_iff :
      (cfg : AppConfig F) (key model : Str)
      → (token_has_model_access cfg key model ≡ true) ↔ (
          (token : TokenConfig) × (find (λ t. same t.key key) cfg.tokens ≡ some token)
          × Grants cfg token model)
  unfolding token_has_model_access resolve_token
  token_has_model_access_iff cfg key model =
      elim (Option-cases (find (λ t. same t.key key) cfg.tokens)) [
        | inl e ↦ ((λ h. absurd (ground arith)), (λ g. absurd (ground (arith, g.1))))
        | inr (token, e) ↦
            let test = decided cfg key model token e in
            let sound = covers (names_of cfg token) model in
            (
              (λ h. (token, e, Covers-Grants cfg token model (sound.0 (sym test ∙ h)))),
              (λ g. test ∙ sound.1 (Grants-Covers cfg token model (the_token token e g))),
            )
      ]
    where
      the_token :
          (token : TokenConfig)
          → find (λ t. same t.key key) cfg.tokens ≡ some token
          → (token : TokenConfig) × (find (λ t. same t.key key) cfg.tokens ≡ some token)
            × Grants cfg token model
          → Grants cfg token model
      the_token token e (other, e', g) = rw (ap (λ o. get_or o token) (sym e ∙ e')) g
