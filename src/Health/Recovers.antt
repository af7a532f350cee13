-- ===== src/Health/Recovers.antt =====
-- src/health/checker.rs: what the background checker makes of an endpoint that works again.
use rust_ai_router.Base.{
  ℕ, ◌≤◌, ◌==◌, ◌≡◌, refl, sym, ◌∙◌, Bool, true, false, not, ◌&&◌, ◌||◌, Option, some, List, [],
  ◌∷◌, ◌++◌, Str, same, any, leb, if◌then◌else◌, arith, Float, inl, inr, Bool-cases, map_opt,
  leb→le,
}
use rust_ai_router.Base.Dict.{get-put}
use rust_ai_router.Config.{AppConfig, ModelConfig, EndpointConfig}
use rust_ai_router.Fail2ban.{Fail2ban, is_banned}
use rust_ai_router.Fail2ban.Bans.{banned_at, banned_at-is_banned, banned_at-record_failure}
use rust_ai_router.Health.{
  HealthStore, Probe, answered, unreachable, is_success, set_unhealthy, blame, check_endpoint,
  check_endpoints, check_models, check_all_endpoints, check_rounds, start_background_health_checker,
  health_of,
}
use rust_ai_router.Health.Round.{check_endpoint-heals}
use rust_ai_router.Keys.{endpoint_key}

-- The endpoints of all models, in the order of the rounds.
unfoldable pub endpoints_of : {F : Type 0} → List (ModelConfig F) → List (EndpointConfig F)
endpoints_of [] = []
endpoints_of (m ∷ ms) = m.endpoints ++ endpoints_of ms

abbrev pub succeeded : Probe → Bool
succeeded (answered status) = is_success status
succeeded (unreachable reason) = false

-- A probe by the time `later`, that succeeds if the endpoint has the key.
abbrev pub works : {F : Type 0} → (EndpointConfig F → ℕ × Probe) → ℕ → Str → EndpointConfig F → Bool
works world later key ep =
    leb (world ep).0 later && (not (same (endpoint_key ep) key) || succeeded (world ep).1)

abbrev healthy_at : HealthStore → Str → Option Bool
healthy_at store key = map_opt (λ h. h.healthy) (health_of store key)

healthy_at-set_unhealthy :
    (store : HealthStore) (k key reason : Str) (now : ℕ)
    → same k key ≡ false
    → healthy_at (set_unhealthy store k reason now) key ≡ healthy_at store key
unfolding set_unhealthy
healthy_at-set_unhealthy store k key reason now other = grind (arith, get-put)

module _ {F : Type 0} ⦃fl : Float F⦄ where
  -- Blame for one endpoint leaves the bans of the others.
  banned_at-blame :
      (fb : Fail2ban F) (k key : Str) (status now later : ℕ)
      → now ≤ later
      → same k key ≡ false
      → banned_at (blame fb k status now) key later ≡ banned_at fb key later
  unfolding blame
  banned_at-blame fb k key status now later h other = elim (Bool-cases (is_banned fb k now).0) [
    | inl banned ↦ rw banned (banned_at-is_banned fb k key now later h)
    | inr free ↦
        rw (free, banned_at-record_failure (is_banned fb k now).1 k key status now later, other)
          (banned_at-is_banned fb k key now later h)
  ]

  -- What a probe that works does to the key.
  abbrev Seen : Str → ℕ → Bool → Fail2ban F × HealthStore → Fail2ban F × HealthStore → Type 0
  Seen key later hit after before =
      (banned_at after.0 key later ≡ (if hit then false else banned_at before.0 key later))
      × (healthy_at after.1 key ≡ (if hit then some true else healthy_at before.1 key))

  Seen-then :
      (key : Str) (later : ℕ) (hit more : Bool) (one two three : Fail2ban F × HealthStore)
      → Seen key later hit two one
      → Seen key later more three two
      → Seen key later (hit || more) three one
  Seen-then key later true true one two three h k = k
  Seen-then key later false true one two three h k = k
  Seen-then key later true false one two three h k = (k.0 ∙ h.0, k.1 ∙ h.1)
  Seen-then key later false false one two three h k = (k.0 ∙ h.0, k.1 ∙ h.1)

  -- A probe that works, of the key or of another one.
  check_endpoint-Seen :
      (probe : Probe) (ep : EndpointConfig F) (fb : Fail2ban F) (store : HealthStore) (key : Str)
      (now later : ℕ)
      → now ≤ later
      → not (same (endpoint_key ep) key) || succeeded probe ≡ true
      → Seen key later
          (same (endpoint_key ep) key)
          (check_endpoint probe ep fb store now)
          (fb, store)
  unfolding check_endpoint
  check_endpoint-Seen (unreachable reason) ep fb store key now later h ok =
      let other : same (endpoint_key ep) key ≡ false = ground (arith, ok) in
      rw other (
        banned_at-blame fb (endpoint_key ep) key 0 now later h other,
        healthy_at-set_unhealthy store (endpoint_key ep) key reason now other,
      )
  check_endpoint-Seen (answered status) ep fb store key now later h ok =
      elim (Bool-cases (is_success status)) [
        | inl success ↦ check_endpoint-heals ep fb store status now later key success h
        | inr failure ↦
            let other : same (endpoint_key ep) key ≡ false = ground (arith, ok, failure) in
            rw (other, failure)
              (
                banned_at-blame fb (endpoint_key ep) key status now later h other,
                healthy_at-set_unhealthy store (endpoint_key ep) key _ now other,
              )
      ]

  check_endpoints-Seen :
      (world : EndpointConfig F → ℕ × Probe) (eps : List (EndpointConfig F)) (fb : Fail2ban F)
      (store : HealthStore) (key : Str) (later : ℕ)
      → any (λ ep. not (works world later key ep)) eps ≡ false
      → Seen key later
          (any (λ ep. same (endpoint_key ep) key) eps)
          (check_endpoints world eps fb store)
          (fb, store)
  unfolding check_endpoints
  check_endpoints-Seen world [] fb store key later ok = (refl, refl)
  check_endpoints-Seen world (ep ∷ eps) fb store key later ok =
      let (fb', store') = check_endpoint (world ep).1 ep fb store (world ep).0 in
      let rest = check_endpoints-Seen world eps fb' store' key later (ground (arith, ok)) in
      let here =
        check_endpoint-Seen (world ep).1 ep fb store key (world ep).0 later
          (leb→le (world ep).0 later (ground (arith, ok))) (ground (arith, ok)) in
      Seen-then key later (same (endpoint_key ep) key) (any (λ x. same (endpoint_key x) key) eps)
        (fb, store) (fb', store') (check_endpoints world eps fb' store') here rest

  check_endpoints-append :
      (world : EndpointConfig F → ℕ × Probe) (eps more : List (EndpointConfig F)) (fb : Fail2ban F)
      (store : HealthStore)
      → check_endpoints world (eps ++ more) fb store
        ≡ check_endpoints world more
            (check_endpoints world eps fb store).0
            (check_endpoints world eps fb store).1
  unfolding check_endpoints
  check_endpoints-append world [] more fb store = refl
  check_endpoints-append world (ep ∷ eps) more fb store =
      let (fb', store') = check_endpoint (world ep).1 ep fb store (world ep).0 in
      check_endpoints-append world eps more fb' store'

  check_models-endpoints_of :
      (world : EndpointConfig F → ℕ × Probe) (ms : List (ModelConfig F)) (fb : Fail2ban F)
      (store : HealthStore)
      → check_models world ms fb store ≡ check_endpoints world (endpoints_of ms) fb store
  unfolding check_models check_endpoints endpoints_of
  check_models-endpoints_of world [] fb store = refl
  check_models-endpoints_of world (m ∷ ms) fb store =
      let (fb', store') = check_endpoints world m.endpoints fb store in
      check_models-endpoints_of world ms fb' store'
      ∙ sym (check_endpoints-append world m.endpoints (endpoints_of ms) fb store)

  check_rounds-append :
      (rounds more : List (AppConfig F × (EndpointConfig F → ℕ × Probe))) (fb : Fail2ban F)
      (store : HealthStore)
      → check_rounds (rounds ++ more) fb store
        ≡ check_rounds more (check_rounds rounds fb store).0 (check_rounds rounds fb store).1
  unfolding check_rounds
  check_rounds-append [] more fb store = refl
  check_rounds-append ((cfg, world) ∷ rounds) more fb store =
      let (fb', store') = check_all_endpoints world cfg fb store in
      check_rounds-append rounds more fb' store'

  -- The background checker brings an endpoint back. Let the checker be on, let an endpoint of the
  -- configuration have the key, and let all probes of its last round be made by a time, those under
  -- the key with success. Then, whatever the state was at the start and whatever the rounds before
  -- found, the key is not banned at that time, and it is marked as healthy.
  pub start_background_health_checker-heals :
      (interval_secs : ℕ) (before : List (AppConfig F × (EndpointConfig F → ℕ × Probe)))
      (cfg : AppConfig F) (world : EndpointConfig F → ℕ × Probe) (fb : Fail2ban F)
      (store : HealthStore) (key : Str) (later : ℕ)
      → interval_secs == 0 ≡ false
      → any (λ ep. same (endpoint_key ep) key) (endpoints_of cfg.models) ≡ true
      → any (λ ep. not (works world later key ep)) (endpoints_of cfg.models) ≡ false
      → let after =
          start_background_health_checker interval_secs (before ++ (cfg, world) ∷ []) fb store in
        (banned_at after.0 key later ≡ false)
        × (map_opt (λ h. h.healthy) (health_of after.1 key) ≡ some true)
  unfolding start_background_health_checker check_rounds check_all_endpoints
  start_background_health_checker-heals interval_secs before cfg world fb store key later on there
        ok =
      let (fb', store') = check_rounds before fb store in
      let seen = check_endpoints-Seen world (endpoints_of cfg.models) fb' store' key later ok in
      rw
        (
          on,
          check_rounds-append before ((cfg, world) ∷ []) fb store,
          check_models-endpoints_of world cfg.models fb' store',
        )
        (seen.0 ∙ rw there refl, seen.1 ∙ rw there refl)
