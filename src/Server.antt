-- ===== src/Server.antt =====
-- src/main.rs: the arguments of the program, the state that it starts with, the table of routes, and
-- what a request goes through. How the crate axum finds a route in the table is a parameter.
pub mod Sends
pub mod System
use rust_ai_router.Anthropic
use rust_ai_router.Auth.{AuthContext, auth_middleware}
use rust_ai_router.Base.{
  ℕ, Bool, true, false, not, ◌||◌, Option, none, some, List, [], ◌∷◌, ◌++◌, Str, bytes, same, any,
  keep, is_empty, get_or, or_else, trim_start_matches, trim_end_matches, if◌then◌else◌, Float,
}
use rust_ai_router.Config.{AppConfig}
use rust_ai_router.Dashboard.{HealthReport, StatsReport, health_json, stats_json}
use rust_ai_router.Dashboard.Page.{health_dashboard}
use rust_ai_router.Fail2ban
use rust_ai_router.Health.{empty_store}
use rust_ai_router.Json.{Json}
use rust_ai_router.Keys.Urls.{ParsedUrl, mask_endpoint_url}
use rust_ai_router.Models.{ListReply, list_models, ollama_tags}
use rust_ai_router.Proxy.Attempt.{Reply}
use rust_ai_router.Proxy.Chat.{HttpRequest, HttpRound, chat_handler}
use rust_ai_router.Proxy.Generic.{GenericRequest, GenericReply, proxy_generic}
use rust_ai_router.Proxy.State.{AppState}
use rust_ai_router.RateLimit.Store.{Governor}
use rust_ai_router.Router.Balancer.{SelectedEndpoint}
use rust_ai_router.Router.Sticky
use rust_ai_router.Sync
use rust_ai_router.Sync.{Redis}
use rust_ai_router.Sync.Connect.{Servers, connect}

-- The arguments behind the program's name, and the variable OPENAI_ROUTER_CONFIG: whether the log is
-- verbose, and the path of the configuration.
abbrev is_flag : Str → Bool
is_flag a = same a (bytes "--verbose") || same a (bytes "-v")

abbrev first : List Str → Option Str
first [] = none
first (a ∷ args) = some a

unfoldable pub arguments : List Str → Option Str → Bool × Str
unfolding same
arguments args variable = (
  any is_flag args,
  get_or (or_else (first (keep (λ a. not (is_flag a)) args)) variable) (bytes "config.yaml"),
)

module _ {F G R : Type 0} where
  -- The state at the start.
  unfoldable pub initial : Servers R → AppConfig F → AppState F G R
  unfolding Fail2ban.new Sticky.new Sync.new connect
  initial servers cfg = record {
    router = [];
    limits = record {
      limiters = [];
      fail2ban =
          Fail2ban.new cfg.fail2ban.max_failures cfg.fail2ban.ban_duration_secs
            cfg.fail2ban.error_threshold_pct cfg.fail2ban.fail_status_codes;
      sync = if cfg.sync.enabled then get_or (connect servers cfg.sync) Sync.new else Sync.new;
    };
    session = record {
      sticky = Sticky.new cfg.session.sticky_ttl_secs;
      sticky_ttl_secs = cfg.session.sticky_ttl_secs;
    };
    health_store = empty_store;
    live_stats = record {
      requests_total = 0;
      requests_by_token = [];
      requests_by_team = [];
      requests_by_endpoint = [];
      errors_by_token = [];
      errors_by_team = [];
      errors_by_endpoint = [];
    };
    sent = [];
  }

pub data Method : Type 0 where
  get_method post_method : Method

-- The handlers of the table.
pub data Route : Type 0 where
  chat_route models_route health_route page_route stats_route metrics_route tags_route
        version_route :
      Route

-- The prefix of all paths, and the table.
unfoldable pub path_prefix : Str → Str
unfolding trim_start_matches trim_end_matches
path_prefix base_path =
    if is_empty base_path
    then []
    else b'/' ∷ trim_end_matches b'/' (trim_start_matches b'/' base_path)

unfoldable pub routes : Str → List (Str × Method × Route)
unfolding path_prefix
routes base_path =
    let bp = path_prefix base_path in
    let v1_prefix = bp ++ bytes "/v1" in
    (bp ++ bytes "/health", get_method, health_route)
    ∷ (bp ++ bytes "/vhealth", get_method, page_route)
    ∷ (bp ++ bytes "/stats", get_method, stats_route)
    ∷ (bp ++ bytes "/metrics", get_method, metrics_route)
    ∷ (bp ++ bytes "/api/tags", get_method, tags_route)
    ∷ (bp ++ bytes "/api/version", get_method, version_route)
    ∷ (v1_prefix ++ bytes "/chat/completions", post_method, chat_route)
    ∷ (v1_prefix ++ bytes "/responses", post_method, chat_route)
    ∷ (v1_prefix ++ bytes "/completions", post_method, chat_route)
    ∷ (v1_prefix ++ bytes "/messages", post_method, chat_route)
    ∷ (v1_prefix ++ bytes "/models", get_method, models_route)
    ∷ []

-- What axum makes of a request: a handler of the table, the fallback `proxy_generic`, or neither.
pub data Dispatched : Type 0 where
  handled : Route → Dispatched
  fallback method_not_allowed : Dispatched

pub record ServerRequest : Type 0 where
  pub method : Str
  pub path : Str
  pub path_and_query : Str
  pub authorization : Option Str
  pub content_type : Str
  pub body : Option Str
  pub now : ℕ
  pub unix : ℕ
  pub date : Str

-- `stats_response none` is the refusal of `Extension`, where there is no context.
pub data Response (F V : Type 0) : Type 0 where
  chat_response : Option (Reply F) → Response F V
  generic_response : GenericReply F → Response F V
  list_response : ListReply F V → Response F V
  health_response : HealthReport → Response F V
  page_response : Str → Response F V
  stats_response : Option StatsReport → Response F V
  version_response : V → Response F V
  metrics_response refused_response : Response F V

-- What the endpoints answer, to `proxy_handler` and to `proxy_generic`; the parser of URLs; how a
-- percentage is printed; CARGO_PKG_VERSION; and the fuel of the retry loop.
pub record World (F : Type 0) : Type 0 where
  pub answers : ℕ → SelectedEndpoint F → HttpRound
  pub answer : SelectedEndpoint F → HttpRound
  pub parse_url : Str → Option ParsedUrl
  pub percent : ℕ → ℕ → Str
  pub version : Str
  pub fuel : ℕ

module _ {F V G R : Type 0} where
  abbrev pub paired :
      {A : Type 0} → (A → Response F V) → A × AppState F G R → Response F V × AppState F G R
  paired wrap (reply, app) = (wrap reply, app)

module _ {V F G R : Type 0} ⦃json : Json V⦄ ⦃fl : Float F⦄ ⦃gov : Governor G⦄
    ⦃redis : Redis R⦄ where
  unfoldable pub handle_route :
      AppConfig F
      → Str
      → World F
      → ServerRequest
      → Option (AuthContext F)
      → AppState F G R
      → Route
      → Response F V × AppState F G R
  unfolding chat_handler list_models ollama_tags health_json health_dashboard stats_json
      mask_endpoint_url
  handle_route cfg base_path world req auth app chat_route = paired chat_response (
      chat_handler V cfg base_path
        (record { auth = auth; path = req.path; body = req.body; now = req.now; unix = req.unix })
        world.answers world.fuel app)
  handle_route cfg base_path world req auth app models_route =
      paired list_response (list_models cfg auth req.now req.unix app)
  handle_route cfg base_path world req auth app tags_route =
      paired list_response (ollama_tags cfg auth req.date req.now req.unix app)
  handle_route cfg base_path world req auth app health_route =
      paired health_response (health_json (mask_endpoint_url world.parse_url) cfg req.now app)
  handle_route cfg base_path world req auth app page_route =
      paired page_response (
        health_dashboard (mask_endpoint_url world.parse_url) world.percent cfg base_path req.now
          app)
  handle_route cfg base_path world req none app stats_route = (stats_response none, app)
  handle_route cfg base_path world req (some ctx) app stats_route =
      paired (λ report. stats_response (some report))
        (stats_json (mask_endpoint_url world.parse_url) cfg ctx req.now req.unix app)
  handle_route cfg base_path world req auth app metrics_route = (metrics_response, app)
  handle_route cfg base_path world req auth app version_route =
      (version_response (json.object ((bytes "version", json.string world.version) ∷ [])), app)

  unfoldable pub handle :
      AppConfig F
      → Str
      → World F
      → ServerRequest
      → Option (AuthContext F)
      → AppState F G R
      → Dispatched
      → Response F V × AppState F G R
  unfolding handle_route proxy_generic
  handle cfg base_path world req auth app (handled route) =
      handle_route cfg base_path world req auth app route
  handle cfg base_path world req auth app method_not_allowed = (refused_response, app)
  handle cfg base_path world req auth app fallback = paired generic_response (
      proxy_generic V cfg base_path
        (record {
          auth = auth;
          path_and_query = req.path_and_query;
          content_type = req.content_type;
          body = req.body;
          now = req.now;
          unix = req.unix;
        })
        world.answer app)

  -- A request from its arrival to its response: `auth_middleware`, and then the handler.
  unfoldable pub serve :
      (List (Str × Method × Route) → Str → Str → Dispatched)
      → AppConfig F
      → Str
      → World F
      → ServerRequest
      → AppState F G R
      → Response F V × AppState F G R
  unfolding handle routes auth_middleware
  serve dispatch cfg base_path world req app =
      handle cfg base_path world req (auth_middleware cfg req.path req.authorization) app
        (dispatch (routes base_path) req.method req.path)
