-- ===== src/Server/System/Sends.antt =====
-- src/main.rs: where each request that reached an endpoint comes from.
use rust_ai_router.Auth.{AuthContext, auth_middleware}
use rust_ai_router.Base.{
  ℕ, ◌≡◌, refl, ap, true, some, is_some, not, Option, inl, inr, Bool-cases, any, List, [], ◌∷◌,
  ◌++◌, Str, Float,
}
use rust_ai_router.Config.{AppConfig, token_has_model_access}
use rust_ai_router.Json.{Json}
use rust_ai_router.Proxy.Attempt.{Prepared}
use rust_ai_router.Proxy.Attempt.Outbox.{sent-consume_usage}
use rust_ai_router.Proxy.Generic.{generic_stream_end}
use rust_ai_router.Proxy.Handler.Access.{Sent, nothing, one_more, OfModel, unsent}
use rust_ai_router.Proxy.State.{AppState}
use rust_ai_router.Proxy.Stream.{finish_stream}
use rust_ai_router.RateLimit.Store.{Governor}
use rust_ai_router.Router.Balancer.{SelectedEndpoint}
use rust_ai_router.Server.{ServerRequest, World}
use rust_ai_router.Server.Sends.{serve-sends}
use rust_ai_router.Server.System.{
  Event, request, chat_stream_ends, generic_stream_ends, health_round, limiter_cleanup,
  file_changes, Setting, System, step, run,
}
use rust_ai_router.Sync.{Redis}

module _ {F : Type 0} where
  Sent-map :
      (P Q : SelectedEndpoint F → Type 0) (before after : List (SelectedEndpoint F))
      → ((s : SelectedEndpoint F) → P s → Q s)
      → Sent P before after
      → Sent Q before after
  Sent-map P Q before after f nothing = nothing
  Sent-map P Q before after f (one_more s older p sent) =
      one_more s older (f s p) (Sent-map P Q before older f sent)

  Sent-trans :
      (Q : SelectedEndpoint F → Type 0) (one two three : List (SelectedEndpoint F))
      → Sent Q one two
      → Sent Q two three
      → Sent Q one three
  Sent-trans Q one two three first nothing = first
  Sent-trans Q one two three first (one_more s older q sent) =
      one_more s older q (Sent-trans Q one two older first sent)

module _ (V : Type 0) {F G R : Type 0} ⦃json : Json V⦄ ⦃fl : Float F⦄ ⦃gov : Governor G⦄
    ⦃redis : Redis R⦄ (setting : Setting F) where
  -- A request of the history, from a caller that the configuration of that moment knows, and lets use
  -- a model that has the endpoint.
  pub record Origin (start : System F G R) (events : List (Event F)) (s : SelectedEndpoint F)
      : Type 0 where
    pub before : List (Event F)
    pub world : World F
    pub req : ServerRequest
    pub after : List (Event F)
    pub ctx : AuthContext F
    pub model : Str
    pub happened : events ≡ before ++ request world req ∷ after
    pub known :
        auth_middleware (run V setting before start).config req.path req.authorization ≡ some ctx
    pub granted :
        token_has_model_access (run V setting before start).config ctx.token_key model ≡ true
    pub of_model : OfModel (run V setting before start).config model s

  later :
      (start : System F G R) (e : Event F) (events : List (Event F)) (s : SelectedEndpoint F)
      → Origin (step V setting e start) events s
      → Origin start (e ∷ events) s
  unfolding run
  later start e events s o = record {
    before = e ∷ o.before;
    world = o.world;
    req = o.req;
    after = o.after;
    ctx = o.ctx;
    model = o.model;
    happened = ap (λ l. e ∷ l) o.happened;
    known = o.known;
    granted = o.granted;
    of_model = o.of_model;
  }

  sent-finish_stream :
      (cfg : AppConfig F) (p : Prepared) (ep : SelectedEndpoint F) (app : AppState F G R)
      (chunks : List (Option Str)) (now unix : ℕ)
      → (finish_stream V cfg p ep app chunks now unix).sent ≡ app.sent
  unfolding finish_stream
  sent-finish_stream cfg p ep app chunks now unix = sent-consume_usage cfg p ep app _ now unix

  step-Sent :
      (start : System F G R) (e : Event F) (events : List (Event F))
      → Sent (Origin start (e ∷ events)) start.app.sent (step V setting e start).app.sent
  unfolding step run
  step-Sent start (request world req) events =
      elim (serve-sends V setting.dispatch start.config setting.base_path world req start.app) [
        | inl e ↦ unsent _ start.app.sent _ e
        | inr (ctx, model, known, granted, sent) ↦
            Sent-map (OfModel start.config model) _ start.app.sent _
              (λ s of_model. record {
                before = [];
                world = world;
                req = req;
                after = events;
                ctx = ctx;
                model = model;
                happened = refl;
                known = known;
                granted = granted;
                of_model = of_model;
              })
              sent
      ]
  step-Sent start (chat_stream_ends p ep chunks now unix) events =
      unsent _ start.app.sent _ (sent-finish_stream start.config p ep start.app chunks now unix)
  step-Sent start (generic_stream_ends p ep chunks now unix) events =
      elim (Bool-cases (any (λ chunk. not (is_some chunk)) chunks)) [
        | inl e ↦ unsent _ start.app.sent _ (rw (generic_stream_end, e) refl)
        | inr e ↦ unsent _ start.app.sent _ (
            rw (generic_stream_end, e)
              (sent-finish_stream start.config p ep start.app chunks now unix))
      ]
  step-Sent start (health_round world) events = nothing
  step-Sent start (limiter_cleanup unix) events = nothing
  step-Sent start (file_changes change) events = nothing

  -- Requests, ends of streams, rounds of the background tasks and changes of the configuration file
  -- may come in any order. Each request that reached an endpoint since the start belongs to a request
  -- of that history: its caller was known to the configuration of that moment, which let the caller's
  -- token use a model that had the endpoint.
  pub run-Sent :
      (start : System F G R) (events : List (Event F))
      → Sent (Origin start events) start.app.sent (run V setting events start).app.sent
  unfolding run
  run-Sent start [] = nothing
  run-Sent start (e ∷ events) =
      let mid = step V setting e start in
      Sent-trans (Origin start (e ∷ events)) start.app.sent mid.app.sent _
        (step-Sent start e events)
        (Sent-map (Origin mid events) (Origin start (e ∷ events)) mid.app.sent _
          (later start e events) (run-Sent mid events))
