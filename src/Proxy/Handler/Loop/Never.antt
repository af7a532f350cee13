-- ===== src/Proxy/Handler/Loop/Never.antt =====
-- When the router's keys are never those of the handler, no failure ends the loop.
use rust_ai_router.Base.{
  ℕ, zero, suc, ◌<◌, ◌≡◌, refl, ◌∙◌, inl, inr, Bool, true, false, Option, none, some, List, Str,
  same, contains, length, get_elem?, get_elem?_lt, Option-cases, arith, Float, if◌then◌else◌,
}
use rust_ai_router.Config.{AppConfig, ModelConfig, EndpointConfig, find_model}
use rust_ai_router.Keys.{router_key, endpoint_key}
use rust_ai_router.Proxy.Attempt.{
  Outcome, network_error, answered, Round, Reply, Prepared, Turn, Next, again, attempt, insert,
  selected_key, endpoint_limits, on_limits, on_outcome, on_network_error, next_endpoint, fail_over,
}
use rust_ai_router.Proxy.Attempt.Cases.{attempt-again}
use rust_ai_router.Proxy.Handler.{retry_loop}
use rust_ai_router.Proxy.Handler.Loop.{contains-insert}
use rust_ai_router.Proxy.Handler.Loop.Ends.{Chosen-Fresh}
use rust_ai_router.Proxy.Limits.{Limited}
use rust_ai_router.Proxy.State.{AppState}
use rust_ai_router.RateLimit.Store.{Governor, RateLimitResult}
use rust_ai_router.Router.Balancer.{SelectedEndpoint, Counters, select_available}
use rust_ai_router.Router.Balancer.Available.{select_available-none}
use rust_ai_router.Sync.{Redis}

module _ {F : Type 0} where
  -- None of the keys is one by which the router knows an endpoint of the model.
  abbrev pub Unknown : ModelConfig F → List Str → Type 0
  Unknown m keys =
      (i : ℕ) (ep : EndpointConfig F)
      → get_elem? m.endpoints i ≡ some ep
      → contains keys (router_key ep) ≡ false

  -- No endpoint's key is one by which the router knows an endpoint of the model.
  abbrev pub OtherKeys : ModelConfig F → Type 0
  OtherKeys m =
      (i j : ℕ) (ep other : EndpointConfig F)
      → get_elem? m.endpoints i ≡ some ep
      → get_elem? m.endpoints j ≡ some other
      → same (endpoint_key ep) (router_key other) ≡ false

  -- The turn is at an endpoint of the model.
  pub record At (m : ModelConfig F) (s : SelectedEndpoint F) : Type 0 where
    pub place : ℕ
    pub ep : EndpointConfig F
    pub found : get_elem? m.endpoints place ≡ some ep
    pub keyed : selected_key s ≡ endpoint_key ep

  Unknown-insert :
      (m : ModelConfig F) (keys : List Str) (s : SelectedEndpoint F)
      → OtherKeys m
      → Unknown m keys
      → At m s
      → Unknown m (insert keys (selected_key s))
  Unknown-insert m keys s others unknown at i ep e =
      let apart = others at.place i at.ep ep at.found e in
      contains-insert keys (selected_key s) (router_key ep)
      ∙ rw (at.keyed, apart, unknown i ep e) refl

module _ {F : Type 0} ⦃fl : Float F⦄ where
  -- The router has an endpoint to offer, whatever its counters.
  abbrev Offers : AppConfig F → Prepared → List Str → Type 0
  Offers cfg p tried =
      (counters : Counters)
      → (s : SelectedEndpoint F) × ((select_available cfg counters p.canonical_model p.banned_keys
            tried).0
          ≡ some s)

  -- Then the router always has an endpoint to offer.
  offers :
      (cfg : AppConfig F) (counters : Counters) (model_name : Str) (banned tried : List Str)
      (m : ModelConfig F)
      → find_model cfg model_name ≡ some m
      → 0 < length m.endpoints
      → Unknown m banned
      → Unknown m tried
      → (s : SelectedEndpoint F) × ((select_available cfg counters model_name banned tried).0
          ≡ some s)
  offers cfg counters model_name banned tried m known some_endpoint bans tries =
      elim (Option-cases (select_available cfg counters model_name banned tried).0) [
        | inr found ↦ found
        | inl e ↦
            let (ep, here) = get_elem?_lt m.endpoints 0 some_endpoint in
            let skipped =
              select_available-none cfg counters model_name banned tried m known e 0 ep here in
            let b = bans 0 ep here in let t = tries 0 ep here in absurd (ground arith)
      ]

module _ {F G R : Type 0} ⦃fl : Float F⦄ ⦃gov : Governor G⦄ ⦃redis : Redis R⦄ where
  -- The loop goes on.
  unfoldable Continues : Next F × AppState F G R → Type 0
  Continues r = (turn : Turn F) × (r.0 ≡ again turn)

  then-Continues :
      (b : Bool) (r s : Next F × AppState F G R)
      → b ≡ true
      → Continues r
      → Continues (if b then r else s)
  then-Continues true r s e h = h
  then-Continues false r s e h = absurd (ground arith)

  else-Continues :
      (b : Bool) (r s : Next F × AppState F G R)
      → b ≡ false
      → Continues s
      → Continues (if b then r else s)
  else-Continues false r s e h = h
  else-Continues true r s e h = absurd (ground arith)

  fail_over-Continues :
      (cfg : AppConfig F) (p : Prepared) (app : AppState F G R) (tried : List Str)
      (last : Option (Reply F)) (exhausted : Reply F)
      → Offers cfg p tried
      → Continues (fail_over cfg p app tried last exhausted)
  unfolding fail_over Continues
  fail_over-Continues cfg p app tried last exhausted offered =
      let (s, e) = offered app.router in
      (
        record { current_endpoint = s; tried_keys = tried; last_error_response = last },
        rw (fail_over, e) refl,
      )

  on_network_error-Continues :
      (cfg : AppConfig F) (p : Prepared) (app : AppState F G R) (turn : Turn F) (a : Round)
      → cfg.fail2ban.retry_on_failure ≡ true
      → Offers cfg p (insert turn.tried_keys (selected_key turn.current_endpoint))
      → Continues (on_network_error cfg p app turn a)
  unfolding on_network_error next_endpoint
  on_network_error-Continues cfg p app turn a retry offered =
      then-Continues _ _ _ retry (fail_over-Continues cfg p _ _ _ _ offered)

  on_outcome-Continues :
      (cfg : AppConfig F) (p : Prepared) (app : AppState F G R) (turn : Turn F) (a : Round)
      (o : Outcome)
      → cfg.fail2ban.retry_on_failure ≡ true
      → p.is_stream ≡ false
      → o ≡ network_error
      → Offers cfg p (insert turn.tried_keys (selected_key turn.current_endpoint))
      → Continues (on_outcome cfg p app turn a o)
  unfolding on_outcome
  on_outcome-Continues cfg p app turn a network_error retry whole fails offered =
      else-Continues _ _ _ whole (on_network_error-Continues cfg p app turn a retry offered)
  on_outcome-Continues cfg p app turn a (answered s t u) retry whole fails offered =
      absurd (ground arith)

  on_limits-Continues :
      (cfg : AppConfig F) (p : Prepared) (app : AppState F G R) (turn : Turn F) (a : Round)
      (refused : Option (Limited × RateLimitResult F))
      → cfg.fail2ban.retry_on_failure ≡ true
      → p.is_stream ≡ false
      → a.outcome ≡ network_error
      → Offers cfg p (insert turn.tried_keys (selected_key turn.current_endpoint))
      → Continues (on_limits cfg p app turn a refused)
  unfolding on_limits
  on_limits-Continues cfg p app turn a (some rl) retry whole fails offered =
      fail_over-Continues cfg p app _ _ _ offered
  on_limits-Continues cfg p app turn a none retry whole fails offered =
      on_outcome-Continues cfg p _ turn a a.outcome retry whole fails offered

  attempt-goes :
      (cfg : AppConfig F) (p : Prepared) (app : AppState F G R) (turn : Turn F) (a : Round)
      → cfg.fail2ban.retry_on_failure ≡ true
      → p.is_stream ≡ false
      → a.outcome ≡ network_error
      → Offers cfg p (insert turn.tried_keys (selected_key turn.current_endpoint))
      → (turn' : Turn F) × ((attempt cfg p app turn a).0 ≡ again turn')
  unfolding attempt Continues
  attempt-goes cfg p app turn a retry whole fails offered =
      on_limits-Continues cfg p _ turn a (endpoint_limits app turn.current_endpoint a.now a.unix).0
        retry whole fails offered

  -- Where no endpoint of a known model has a key by which the router knows one, none of the banned
  -- and tried keys is such a key, `retry_on_failure` is set, the request is not streamed, and no
  -- request gets through, the loop returns no reply however many rounds it is given: the request is
  -- tried for ever. (The model has an endpoint, and the loop starts at one.)
  pub retry_loop-never :
      (cfg : AppConfig F) (p : Prepared) (world : ℕ → SelectedEndpoint F → Round)
      (m : ModelConfig F)
      → find_model cfg p.canonical_model ≡ some m
      → 0 < length m.endpoints
      → OtherKeys m
      → Unknown m p.banned_keys
      → cfg.fail2ban.retry_on_failure ≡ true
      → p.is_stream ≡ false
      → ((n : ℕ) (s : SelectedEndpoint F) → (world n s).outcome ≡ network_error)
      → (fuel n : ℕ) (app : AppState F G R) (turn : Turn F) → At m turn.current_endpoint
      → Unknown m turn.tried_keys
      → (retry_loop cfg p world fuel n app turn).0 ≡ none
  unfolding retry_loop
  retry_loop-never cfg p world m known pos others bans retry whole fails zero n app turn at tries =
      refl
  retry_loop-never cfg p world m known pos others bans retry whole fails (suc fuel) n app turn at
        tries =
      let tries' = Unknown-insert m turn.tried_keys turn.current_endpoint others tries at in
      let offered : Offers cfg p (insert turn.tried_keys (selected_key turn.current_endpoint)) =
        λ counters. offers cfg counters p.canonical_model p.banned_keys _ m known pos bans tries' in
      let a = world n turn.current_endpoint in
      let (turn', e) =
        attempt-goes cfg p app turn a retry whole (fails n turn.current_endpoint) offered in
      let chosen = attempt-again cfg p app turn a turn' e in
      let next = Chosen-Fresh cfg p m _ turn' known chosen in
      let there : At m turn'.current_endpoint = record {
        place = next.place;
        ep = next.ep;
        found = next.found;
        keyed = next.keyed;
      } in
      let rest =
        retry_loop-never cfg p world m known pos others bans retry whole fails fuel (suc n) _ turn'
          there (rw (chosen.0) tries') in
      rw (retry_loop, e) rest
