-- ===== src/Proxy/Attempt/Outbox.antt =====
-- What a round sends.
use rust_ai_router.Base.{
  ℕ, ◌≡◌, ◌∙◌, ap, ◌⊎◌, inl, inr, Bool, true, false, Option, none, some, List, ◌∷◌, Str,
  if◌then◌else◌, arith, Float,
}
use rust_ai_router.Config.{AppConfig}
use rust_ai_router.Proxy.Attempt.{
  Outcome, network_error, answered, Round, Reply, Prepared, Turn, Next, done, selected_key,
  saturating_add, endpoint_limits, consume_usage, fail_over, next_endpoint, judge, deliver,
  on_answer, on_network_error, on_outcome, on_limits, attempt,
}
use rust_ai_router.Proxy.Limits.{Limited, shared_limit, local_limit}
use rust_ai_router.Proxy.State.{AppState}
use rust_ai_router.RateLimit.Store.{Governor, RateLimitResult}
use rust_ai_router.Router.Balancer.{SelectedEndpoint}
use rust_ai_router.Sync.{Redis}

module _ {F G R : Type 0} ⦃fl : Float F⦄ ⦃gov : Governor G⦄ ⦃redis : Redis R⦄ where
  sent-endpoint_limits :
      (app : AppState F G R) (ep : SelectedEndpoint F) (now unix : ℕ)
      → (endpoint_limits app ep now unix).1.sent ≡ app.sent
  unfolding endpoint_limits shared_limit local_limit
  sent-endpoint_limits app ep now unix = grind arith

  sent-fail_over :
      (cfg : AppConfig F) (p : Prepared) (app : AppState F G R) (tried : List Str)
      (last : Option (Reply F)) (exhausted : Reply F)
      → (fail_over cfg p app tried last exhausted).1.sent ≡ app.sent
  unfolding fail_over
  sent-fail_over cfg p app tried last exhausted = grind arith

  sent-judge :
      (app : AppState F G R) (key : Str) (status now : ℕ)
      → (judge app key status now).sent ≡ app.sent
  unfolding judge
  sent-judge app key status now = grind arith

  pub sent-consume_usage :
      (cfg : AppConfig F) (p : Prepared) (ep : SelectedEndpoint F) (app : AppState F G R)
      (total now unix : ℕ)
      → (consume_usage cfg p ep app total now unix).sent ≡ app.sent
  unfolding consume_usage
  sent-consume_usage cfg p ep app total now unix = grind arith

  sent-deliver :
      (cfg : AppConfig F) (p : Prepared) (app : AppState F G R) (ep : SelectedEndpoint F)
      (total : ℕ) (a : Round)
      → (deliver cfg p app ep total a).sent ≡ app.sent
  unfolding deliver consume_usage
  sent-deliver cfg p app ep total a = grind arith

  unfoldable Leaves : List (SelectedEndpoint F) → Next F × AppState F G R → Type 0
  Leaves sent r = r.1.sent ≡ sent

  if-Leaves :
      (sent : List (SelectedEndpoint F)) (b : Bool) (r s : Next F × AppState F G R)
      → Leaves sent r
      → Leaves sent s
      → Leaves sent (if b then r else s)
  if-Leaves sent true r s hr hs = hr
  if-Leaves sent false r s hr hs = hs

  done-Leaves :
      (sent : List (SelectedEndpoint F)) (reply : Reply F) (app : AppState F G R)
      → app.sent ≡ sent
      → Leaves sent (done reply, app)
  unfolding Leaves
  done-Leaves sent reply app e = e

  fail_over-Leaves :
      (sent : List (SelectedEndpoint F)) (cfg : AppConfig F) (p : Prepared) (app : AppState F G R)
      (tried : List Str) (last : Option (Reply F)) (exhausted : Reply F)
      → app.sent ≡ sent
      → Leaves sent (fail_over cfg p app tried last exhausted)
  unfolding Leaves
  fail_over-Leaves sent cfg p app tried last exhausted e =
      sent-fail_over cfg p app tried last exhausted ∙ e

  answer_Leaves :
      (cfg : AppConfig F) (p : Prepared) (app : AppState F G R) (turn : Turn F) (status total : ℕ)
      (a : Round)
      → Leaves app.sent (on_answer cfg p app turn status total a)
  unfolding on_answer next_endpoint
  answer_Leaves cfg p app turn status total a =
      let key = selected_key turn.current_endpoint in
      let kept = sent-judge app key status a.answered_at in
      if-Leaves app.sent _ _ _
        (done-Leaves app.sent _ _ (sent-deliver cfg p _ turn.current_endpoint total a ∙ kept))
        (fail_over-Leaves app.sent cfg p _ _ _ _ kept)

  sent-on_answer :
      (cfg : AppConfig F) (p : Prepared) (app : AppState F G R) (turn : Turn F) (status total : ℕ)
      (a : Round)
      → (on_answer cfg p app turn status total a).1.sent ≡ app.sent
  unfolding Leaves
  sent-on_answer cfg p app turn status total a = answer_Leaves cfg p app turn status total a

  sent-on_network_error :
      (cfg : AppConfig F) (p : Prepared) (app : AppState F G R) (turn : Turn F) (a : Round)
      → (on_network_error cfg p app turn a).1.sent ≡ app.sent
  unfolding on_network_error next_endpoint
  sent-on_network_error cfg p app turn a = grind (arith, sent-fail_over)

  sent-on_outcome :
      (cfg : AppConfig F) (p : Prepared) (app : AppState F G R) (turn : Turn F) (a : Round)
      (o : Outcome)
      → (on_outcome cfg p app turn a o).1.sent ≡ app.sent
  unfolding on_outcome
  sent-on_outcome cfg p app turn a network_error = grind (arith, sent-on_network_error)
  sent-on_outcome cfg p app turn a (answered s t u) =
      sent-on_answer cfg p app turn s (saturating_add t u) a

  sent-on_limits :
      (cfg : AppConfig F) (p : Prepared) (app : AppState F G R) (turn : Turn F) (a : Round)
      (refused : Option (Limited × RateLimitResult F))
      → ((on_limits cfg p app turn a refused).1.sent ≡ app.sent)
        ⊎ ((on_limits cfg p app turn a refused).1.sent ≡ turn.current_endpoint ∷ app.sent)
  unfolding on_limits
  sent-on_limits cfg p app turn a (some rl) = inl (sent-fail_over cfg p app _ _ _)
  sent-on_limits cfg p app turn a none = inr (sent-on_outcome cfg p _ turn a a.outcome)

  -- A round sends nothing, or one request to the endpoint of its turn.
  pub sent-attempt :
      (cfg : AppConfig F) (p : Prepared) (app : AppState F G R) (turn : Turn F) (a : Round)
      → ((attempt cfg p app turn a).1.sent ≡ app.sent)
        ⊎ ((attempt cfg p app turn a).1.sent ≡ turn.current_endpoint ∷ app.sent)
  unfolding attempt
  sent-attempt cfg p app turn a =
      let limits = endpoint_limits app turn.current_endpoint a.now a.unix in
      let kept = sent-endpoint_limits app turn.current_endpoint a.now a.unix in
      elim (sent-on_limits cfg p limits.1 turn a limits.0) [
        | inl e ↦ inl (e ∙ kept)
        | inr e ↦ inr (e ∙ ap (λ xs. turn.current_endpoint ∷ xs) kept)
      ]
