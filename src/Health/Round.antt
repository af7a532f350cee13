-- ===== src/Health/Round.antt =====
-- What a probe leaves behind.
use rust_ai_router.Base.{
  ℕ, ◌≤◌, ◌≡◌, refl, ◌∙◌, true, false, some, Str, same, same_iff, if◌then◌else◌, arith, Float, inl,
  inr, Bool-cases, map_opt,
}
use rust_ai_router.Base.Dict.{get-put}
use rust_ai_router.Config.{EndpointConfig}
use rust_ai_router.Fail2ban.{Fail2ban, is_banned, reset}
use rust_ai_router.Fail2ban.Bans.{banned_at, banned_at-reset, banned_at-is_banned}
use rust_ai_router.Health.{
  HealthStore, answered, is_success, set_healthy, check_endpoint, health_of,
}
use rust_ai_router.Keys.{endpoint_key}

module _ {F : Type 0} ⦃fl : Float F⦄ where
  -- An endpoint that is not banned stays so while nothing is recorded of it.
  stays_free :
      (fb : Fail2ban F) (k : Str) (now later : ℕ)
      → banned_at fb k now ≡ false
      → now ≤ later
      → banned_at fb k later ≡ false
  unfolding is_banned
  stays_free fb k now later free h = grind arith

  -- What `check_endpoint` does to the bans when the probe succeeds.
  unfoldable spared : Fail2ban F → Str → ℕ → Fail2ban F
  spared fb k now =
      if (is_banned fb k now).0 then reset (is_banned fb k now).1 k else (is_banned fb k now).1

  -- A probe that succeeds lifts the ban of its endpoint and marks it as healthy, and it changes
  -- neither the bans nor the health of the others: so from the time of the probe on.
  pub check_endpoint-heals :
      (ep : EndpointConfig F) (fb : Fail2ban F) (store : HealthStore) (status now later : ℕ)
      (key : Str)
      → is_success status ≡ true
      → now ≤ later
      → (banned_at (check_endpoint (answered status) ep fb store now).0 key later
          ≡ (if same (endpoint_key ep) key then false else banned_at fb key later))
        × (map_opt
              (λ h. h.healthy)
              (health_of (check_endpoint (answered status) ep fb store now).1 key)
            ≡ (if same (endpoint_key ep) key
                then some true
                else map_opt (λ h. h.healthy) (health_of store key)))
  unfolding check_endpoint set_healthy spared
  check_endpoint-heals ep fb store status now later key ok h =
      (rw (ok) (unbans (endpoint_key ep)), grind (arith, get-put))
    where
      unbans :
          (k : Str)
          → banned_at (spared fb k now) key later
            ≡ (if same k key then false else banned_at fb key later)
      unbans k = elim (Bool-cases (is_banned fb k now).0) [
        | inl banned ↦ rw (banned) (
            banned_at-reset (is_banned fb k now).1 k key later
            ∙ rw (banned_at-is_banned fb k key now later h) refl)
        | inr free ↦
            rw (free)
              (banned_at-is_banned fb k key now later h ∙ grind (arith, same_iff, stays_free))
      ]
