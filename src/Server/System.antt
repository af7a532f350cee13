-- ===== src/Server/System.antt =====
-- src/main.rs: the running program as steps: requests, the ends of streams, the background tasks, and
-- changes of the configuration file, in any order.
pub mod Sends
use rust_ai_router.Base.{ℕ, Bool, Option, List, [], ◌∷◌, Str, Float, if◌then◌else◌}
use rust_ai_router.Config.{AppConfig, EndpointConfig}
use rust_ai_router.Config.Watcher.{Watched, Change, is_relevant, reload}
use rust_ai_router.Health.{Probe, check_all_endpoints}
use rust_ai_router.Json.{Json}
use rust_ai_router.Proxy.Attempt.{Prepared}
use rust_ai_router.Proxy.Generic.{generic_stream_end}
use rust_ai_router.Proxy.State.{AppState, with_limiters, with_fail2ban}
use rust_ai_router.Proxy.Stream.{finish_stream}
use rust_ai_router.RateLimit.Store.{Governor, cleanup}
use rust_ai_router.Router.Balancer.{SelectedEndpoint}
use rust_ai_router.Server.{Method, Route, Dispatched, ServerRequest, World, serve}
use rust_ai_router.Sync.{Redis}

-- A request; the end of a stream of either handler; a round of the health checker; a round of the
-- cleanup of the limiters; an event of the configuration file.
pub data Event (F : Type 0) : Type 0 where
  request : World F → ServerRequest → Event F
  chat_stream_ends generic_stream_ends :
      Prepared → SelectedEndpoint F → List (Option Str) → ℕ → ℕ → Event F
  health_round : (EndpointConfig F → ℕ × Probe) → Event F
  limiter_cleanup : ℕ → Event F
  file_changes : Change → Event F

-- What stays as it is while the program runs.
pub record Setting (F : Type 0) : Type 0 where
  pub dispatch : List (Str × Method × Route) → Str → Str → Dispatched
  pub base_path : Str
  pub watched : Watched
  pub from_str : Str → Option (AppConfig F)

pub record System (F G R : Type 0) : Type 0 where
  pub config : AppConfig F
  pub app : AppState F G R

module _ (V : Type 0) {F G R : Type 0} ⦃json : Json V⦄ ⦃fl : Float F⦄ ⦃gov : Governor G⦄
    ⦃redis : Redis R⦄ (setting : Setting F) where
  unfoldable pub step : Event F → System F G R → System F G R
  unfolding serve finish_stream generic_stream_end check_all_endpoints cleanup is_relevant reload
  step (request world req) s = record s {
    app = (serve {V = V} setting.dispatch s.config setting.base_path world req s.app).1;
  }
  step (chat_stream_ends p ep chunks now unix) s = record s {
    app = finish_stream V s.config p ep s.app chunks now unix;
  }
  step (generic_stream_ends p ep chunks now unix) s = record s {
    app = generic_stream_end V s.config p ep s.app chunks now unix;
  }
  step (health_round world) s =
      let (fb, store) =
        check_all_endpoints world s.config s.app.limits.fail2ban s.app.health_store in
      record s { app = record (with_fail2ban s.app fb) { health_store = store } }
  step (limiter_cleanup unix) s = record s {
    app = with_limiters s.app (cleanup s.app.limits.limiters unix);
  }
  step (file_changes change) s = record s {
    config =
        if is_relevant setting.watched change
        then reload setting.from_str change s.config
        else s.config;
  }

  unfoldable pub run : List (Event F) → System F G R → System F G R
  unfolding step
  run [] s = s
  run (e ∷ events) s = run events (step e s)
