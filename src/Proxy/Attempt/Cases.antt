-- ===== src/Proxy/Attempt/Cases.antt =====
-- How a round of the retry loop leads to the next one.
use rust_ai_router.Base.{
  ℕ, ◌≡◌, inl, inr, Bool, true, false, Option, none, some, List, Str, Option-cases, arith,
  if◌then◌else◌, Float,
}
use rust_ai_router.Config.{AppConfig}
use rust_ai_router.Proxy.Attempt.{
  Outcome, network_error, answered, Round, Reply, Prepared, Turn, Next, on_outcome, on_limits,
  saturating_add, done, again, insert, selected_key, endpoint_limits, fail_over, next_endpoint,
  on_answer, on_network_error, attempt,
}
use rust_ai_router.Proxy.Limits.{Limited}
use rust_ai_router.Proxy.State.{AppState}
use rust_ai_router.RateLimit.Store.{Governor, RateLimitResult}
use rust_ai_router.Router.Balancer.{Counters, select_available}
use rust_ai_router.Sync.{Redis}

module _ {F : Type 0} ⦃fl : Float F⦄ where
  -- The next turn is one that the router chose, with the keys tried until then.
  abbrev pub Chosen : AppConfig F → Prepared → List Str → Turn F → Type 0
  Chosen cfg p tried turn =
      (turn.tried_keys ≡ tried)
      × ((counters : Counters) × ((select_available cfg counters p.canonical_model p.banned_keys
              tried).0
            ≡ some turn.current_endpoint))

module _ {F G R : Type 0} ⦃fl : Float F⦄ ⦃gov : Governor G⦄ ⦃redis : Redis R⦄ where
  fail_over-again :
      (cfg : AppConfig F) (p : Prepared) (app : AppState F G R) (tried : List Str)
      (last : Option (Reply F)) (exhausted : Reply F) (turn : Turn F)
      → (fail_over cfg p app tried last exhausted).0 ≡ again turn
      → Chosen cfg p tried turn
  unfolding fail_over
  fail_over-again cfg p app tried last exhausted turn h =
      elim (Option-cases
        (select_available cfg app.router p.canonical_model p.banned_keys tried).0) [
          | inl e ↦ absurd (ground arith)
          | inr (ep, e) ↦ (grind arith, (app.router, grind arith))
        ]

  -- A result that, when it goes on, goes on to a chosen turn.
  unfoldable Goes : AppConfig F → Prepared → List Str → Next F × AppState F G R → Type 0
  Goes cfg p tried r = (turn : Turn F) → r.0 ≡ again turn → Chosen cfg p tried turn

  done-Goes :
      (cfg : AppConfig F) (p : Prepared) (tried : List Str) (reply : Reply F) (app : AppState F G R)
      → Goes cfg p tried (done reply, app)
  unfolding Goes
  done-Goes cfg p tried reply app turn h = absurd (ground arith)

  if-Goes :
      (cfg : AppConfig F) (p : Prepared) (tried : List Str) (b : Bool)
      (r s : Next F × AppState F G R)
      → Goes cfg p tried r
      → Goes cfg p tried s
      → Goes cfg p tried (if b then r else s)
  if-Goes cfg p tried true r s hr hs = hr
  if-Goes cfg p tried false r s hr hs = hs

  fail_over-Goes :
      (cfg : AppConfig F) (p : Prepared) (app : AppState F G R) (tried : List Str)
      (last : Option (Reply F)) (exhausted : Reply F)
      → Goes cfg p tried (fail_over cfg p app tried last exhausted)
  unfolding Goes
  fail_over-Goes cfg p app tried last exhausted turn h =
      fail_over-again cfg p app tried last exhausted turn h

  on_answer-Goes :
      (cfg : AppConfig F) (p : Prepared) (app : AppState F G R) (turn : Turn F) (status total : ℕ)
      (a : Round)
      → Goes cfg p
          (insert turn.tried_keys (selected_key turn.current_endpoint))
          (on_answer cfg p app turn status total a)
  unfolding on_answer next_endpoint
  on_answer-Goes cfg p app turn status total a =
      if-Goes cfg p _ _ _ _ (done-Goes cfg p _ _ _) (fail_over-Goes cfg p _ _ _ _)

  on_network_error-Goes :
      (cfg : AppConfig F) (p : Prepared) (app : AppState F G R) (turn : Turn F) (a : Round)
      → Goes cfg p
          (insert turn.tried_keys (selected_key turn.current_endpoint))
          (on_network_error cfg p app turn a)
  unfolding on_network_error next_endpoint
  on_network_error-Goes cfg p app turn a =
      if-Goes cfg p _ _ _ _ (fail_over-Goes cfg p _ _ _ _) (done-Goes cfg p _ _ _)

  on_outcome-Goes :
      (cfg : AppConfig F) (p : Prepared) (app : AppState F G R) (turn : Turn F) (a : Round)
      (o : Outcome)
      → Goes cfg p
          (insert turn.tried_keys (selected_key turn.current_endpoint))
          (on_outcome cfg p app turn a o)
  unfolding on_outcome
  on_outcome-Goes cfg p app turn a (answered status prompt completion) =
      on_answer-Goes cfg p app turn status (saturating_add prompt completion) a
  on_outcome-Goes cfg p app turn a network_error =
      if-Goes cfg p _ _ _ _ (done-Goes cfg p _ _ _) (on_network_error-Goes cfg p app turn a)

  on_limits-Goes :
      (cfg : AppConfig F) (p : Prepared) (app : AppState F G R) (turn : Turn F) (a : Round)
      (refused : Option (Limited × RateLimitResult F))
      → Goes cfg p
          (insert turn.tried_keys (selected_key turn.current_endpoint))
          (on_limits cfg p app turn a refused)
  unfolding on_limits
  on_limits-Goes cfg p app turn a (some rl) = fail_over-Goes cfg p _ _ _ _
  on_limits-Goes cfg p app turn a none = on_outcome-Goes cfg p _ turn a a.outcome

  -- Whatever makes a round go on, the key of its endpoint counts as tried from then on.
  pub attempt-again :
      (cfg : AppConfig F) (p : Prepared) (app : AppState F G R) (turn : Turn F) (a : Round)
      (turn' : Turn F)
      → (attempt cfg p app turn a).0 ≡ again turn'
      → Chosen cfg p (insert turn.tried_keys (selected_key turn.current_endpoint)) turn'
  unfolding Goes attempt
  attempt-again cfg p app turn a turn' h =
      on_limits-Goes cfg p _ turn a (endpoint_limits app turn.current_endpoint a.now a.unix).0 turn'
        h
