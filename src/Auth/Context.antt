-- ===== src/Auth/Context.antt =====
-- What an authentication context says of its request.
use rust_ai_router.Auth.{AuthContext, is_public, auth_middleware}
use rust_ai_router.Base.{
  ◌≡◌, refl, ◌∙◌, inl, inr, false, Option, some, [], ◌++◌, Str, bytes, same, find, strip_prefix,
  strip_prefix-some, get_or, Option-cases, Bool-cases, arith, Float,
}
use rust_ai_router.Config.{AppConfig, TokenConfig, EffectiveLimits, resolve_token}

module _ {F : Type 0} ⦃fl : Float F⦄ where
  resolve_token-known :
      (cfg : AppConfig F) (key : Str) (eff : EffectiveLimits F)
      → resolve_token cfg key ≡ some eff
      → (token : TokenConfig) × (find (λ t. same t.key key) cfg.tokens ≡ some token)
  unfolding resolve_token
  resolve_token-known cfg key eff h = elim (Option-cases (find (λ t. same t.key key) cfg.tokens)) [
    | inl e ↦ absurd (ground arith)
    | inr found ↦ found
  ]

  -- Only a request off the public paths gets a context, and only when its header carries, after
  -- `Bearer `, the key of a configured token: the context has that key, the token's team, and the
  -- limits that the configuration resolves for it.
  pub auth_middleware_sound :
      (cfg : AppConfig F) (path : Str) (header : Option Str) (ctx : AuthContext F)
      → auth_middleware cfg path header ≡ some ctx
      → (token : TokenConfig) × (eff : EffectiveLimits F) × (is_public path ≡ false)
        × (get_or header [] ≡ bytes "Bearer " ++ ctx.token_key)
        × (find (λ t. same t.key ctx.token_key) cfg.tokens ≡ some token)
        × (ctx.team ≡ token.team)
        × (resolve_token cfg ctx.token_key ≡ some eff)
        × (ctx.rpm ≡ eff.rpm)
        × (ctx.tpm ≡ eff.tpm)
  unfolding auth_middleware
  auth_middleware_sound cfg path header ctx h = elim (Bool-cases (is_public path)) [
    | inl exempt ↦ absurd (ground arith)
    | inr closed ↦ elim (Option-cases (strip_prefix (bytes "Bearer ") (get_or header []))) [
      | inl e ↦ absurd (ground arith)
      | inr (key, e) ↦ elim (Option-cases (resolve_token cfg key)) [
        | inl u ↦ absurd (ground arith)
        | inr (eff, r) ↦
            let (token, found) = resolve_token-known cfg key eff r in
            let same_key : ctx.token_key ≡ key = grind arith in
            (
              token,
              eff,
              closed,
              strip_prefix-some _ _ _ e ∙ rw (same_key) refl,
              rw (same_key) found,
              grind arith,
              rw (same_key) r,
              grind arith,
              grind arith,
            )
      ]
    ]
  ]
