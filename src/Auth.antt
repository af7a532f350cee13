-- ===== src/Auth.antt =====
-- src/auth/middleware.rs: which requests go on with an authentication context.
pub mod Context
use rust_ai_router.Base.{
  ℕ, Bool, ◌||◌, Option, none, some, List, [], Str, bytes, same, strip_prefix, find, get_or,
  map_opt, if◌then◌else◌, Float,
}
use rust_ai_router.Config.{AppConfig, resolve_token}

pub record AuthContext (F : Type 0) : Type 0 where
  pub token_key : Str
  pub team : Str
  pub models : List Str
  pub rpm : ℕ
  pub tpm : ℕ
  pub cost_multiplier : F

-- The paths that need no authentication.
abbrev pub is_public : Str → Bool
is_public path =
    same path (bytes "/health")
    || same path (bytes "/vhealth")
    || same path (bytes "/metrics")
    || same path (bytes "/api/version")

module _ {F : Type 0} ⦃fl : Float F⦄ where
  -- The context that `auth_middleware` puts into the request's extensions. The header is read as
  -- text; an absent one is the empty text.
  unfoldable pub auth_middleware : AppConfig F → Str → Option Str → Option (AuthContext F)
  auth_middleware cfg path header =
      if is_public path then none else elim (strip_prefix (bytes "Bearer ") (get_or header [])) [
        | none ↦ none
        | some token_key ↦ elim (resolve_token cfg token_key) [
          | none ↦ none
          | some eff ↦ some (record {
            token_key = token_key;
            team = get_or (map_opt (λ t. t.team) (find (λ t. same t.key token_key) cfg.tokens)) [];
            models = eff.models;
            rpm = eff.rpm;
            tpm = eff.tpm;
            cost_multiplier = eff.cost_multiplier;
          })
        ]
      ]
