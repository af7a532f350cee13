-- ===== src/Proxy/Handler/Loop/Ends.antt =====
-- When the router's keys are those of the handler, the loop ends.
use rust_ai_router.Base.{
  ℕ, zero, suc, ◌≤◌, ◌≡◌, refl, sym, ap, get_or, ◌⊎◌, ◌∙◌, inl, inr, true, false, some, List, Str,
  contains, length, get_elem?, is_some, Option-cases, arith, Float,
}
use rust_ai_router.Config.{AppConfig, ModelConfig, EndpointConfig, find_model}
use rust_ai_router.Keys.{router_key, endpoint_key}
use rust_ai_router.Proxy.Attempt.{
  Round, Reply, Prepared, Turn, Next, done, again, attempt, selected_key,
}
use rust_ai_router.Proxy.Attempt.Cases.{Chosen, attempt-again}
use rust_ai_router.Proxy.Handler.{retry_loop}
use rust_ai_router.Proxy.Handler.Loop.{untried, untried-insert, untried-le}
use rust_ai_router.Proxy.State.{AppState}
use rust_ai_router.RateLimit.Store.{Governor}
use rust_ai_router.Router.Balancer.{SelectedEndpoint, build_selected_endpoint}
use rust_ai_router.Router.Balancer.Available.{Picks, select_available_sound, excluded}
use rust_ai_router.Sync.{Redis}

module _ {F : Type 0} where
  -- The router and the handler give each endpoint of the model the same key.
  abbrev pub SameKeys : ModelConfig F → Type 0
  SameKeys m =
      (i : ℕ) (ep : EndpointConfig F)
      → get_elem? m.endpoints i ≡ some ep
      → router_key ep ≡ endpoint_key ep

  -- The turn is at an endpoint of the model that has not been tried.
  pub record Fresh (m : ModelConfig F) (turn : Turn F) : Type 0 where
    pub place : ℕ
    pub ep : EndpointConfig F
    pub found : get_elem? m.endpoints place ≡ some ep
    pub keyed : selected_key turn.current_endpoint ≡ endpoint_key ep
    pub untouched : contains turn.tried_keys (router_key ep) ≡ false

module _ {F : Type 0} ⦃fl : Float F⦄ where
  not_tried :
      (banned tried : List Str) (ep : EndpointConfig F)
      → excluded banned tried ep ≡ false
      → contains tried (router_key ep) ≡ false
  not_tried banned tried ep h = ground arith

  pub Next-cases :
      (next : Next F) → ((r : Reply F) × (next ≡ done r)) ⊎ ((t : Turn F) × (next ≡ again t))
  Next-cases (done r) = inl (r, refl)
  Next-cases (again t) = inr (t, refl)

  selected_key-build :
      (ep : EndpointConfig F) (i n : ℕ)
      → selected_key (build_selected_endpoint ep i n) ≡ endpoint_key ep
  unfolding selected_key endpoint_key build_selected_endpoint
  selected_key-build ep i n = refl

  pub Chosen-Fresh :
      (cfg : AppConfig F) (p : Prepared) (m : ModelConfig F) (tried : List Str) (turn : Turn F)
      → find_model cfg p.canonical_model ≡ some m
      → Chosen cfg p tried turn
      → Fresh m turn
  Chosen-Fresh cfg p m tried turn known (same_tried, (counters, chosen)) =
      let (m', e, picks) =
        select_available_sound cfg counters p.canonical_model p.banned_keys tried
          turn.current_endpoint chosen in
      let here : Picks m.endpoints p.banned_keys tried turn.current_endpoint =
        rw (ap (λ o. get_or o m) (sym known ∙ e)) picks in
      record {
        place = turn.current_endpoint.index;
        ep = here.ep;
        found = here.found;
        keyed = ap selected_key here.built ∙ selected_key-build here.ep _ _;
        untouched = rw (same_tried) (not_tried p.banned_keys tried here.ep here.usable);
      }

module _ {F G R : Type 0} ⦃fl : Float F⦄ ⦃gov : Governor G⦄ ⦃redis : Redis R⦄ where
  -- Where the router and the handler use the same keys, the loop returns a reply after at most as
  -- many rounds as there are endpoints that have not been tried, whatever the endpoints answer.
  retry_loop-bounded :
      (cfg : AppConfig F) (p : Prepared) (world : ℕ → SelectedEndpoint F → Round)
      (m : ModelConfig F)
      → find_model cfg p.canonical_model ≡ some m
      → SameKeys m
      → (fuel n : ℕ) (app : AppState F G R) (turn : Turn F) → Fresh m turn
      → untried turn.tried_keys m.endpoints ≤ fuel
      → is_some (retry_loop cfg p world fuel n app turn).0 ≡ true
  unfolding retry_loop
  retry_loop-bounded cfg p world m known agree zero n app turn fresh enough =
      let less =
        untried-insert turn.tried_keys m.endpoints fresh.place fresh.ep fresh.found
          fresh.untouched in
      absurd (omega arith)
  retry_loop-bounded cfg p world m known agree (suc fuel) n app turn fresh enough =
      elim (Next-cases (attempt cfg p app turn (world n turn.current_endpoint)).0) [
        | inl (reply, e) ↦ rw (retry_loop, e)
        | inr (turn', e) ↦
            let chosen = attempt-again cfg p app turn _ turn' e in
            let next = Chosen-Fresh cfg p m _ turn' known chosen in
            let less =
              untried-insert turn.tried_keys m.endpoints fresh.place fresh.ep fresh.found
                fresh.untouched in
            let marked : selected_key turn.current_endpoint ≡ router_key fresh.ep =
              fresh.keyed ∙ sym (agree fresh.place fresh.ep fresh.found) in
            let rest =
              retry_loop-bounded cfg p world m known agree fuel (suc n) _ turn' next
                (rw (chosen.0, marked) (omega arith)) in
            rw (retry_loop, e) rest
      ]

  -- Where the model is known, and the router and the handler use the same keys for its endpoints,
  -- the loop, started at an endpoint of the model that has not been tried, returns a reply after at
  -- most as many rounds as the model has endpoints, whatever they answer and whichever limits they
  -- meet.
  pub retry_loop-ends :
      (cfg : AppConfig F) (p : Prepared) (world : ℕ → SelectedEndpoint F → Round)
      (m : ModelConfig F) (app : AppState F G R) (turn : Turn F)
      → find_model cfg p.canonical_model ≡ some m
      → SameKeys m
      → Fresh m turn
      → (reply : Reply F) × ((retry_loop cfg p world (length m.endpoints) 0 app turn).0
          ≡ some reply)
  retry_loop-ends cfg p world m app turn known agree fresh =
      let ended =
        retry_loop-bounded cfg p world m known agree (length m.endpoints) 0 app turn fresh
          (untried-le turn.tried_keys m.endpoints) in
      elim (Option-cases (retry_loop cfg p world (length m.endpoints) 0 app turn).0) [
        | inl e ↦ absurd (ground arith)
        | inr found ↦ found
      ]
