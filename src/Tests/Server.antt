-- ===== src/Tests/Server.antt =====
-- src/main.rs on the sample configuration, and what a client is told.
use rust_ai_router.Base.{
  ℕ, Bool, ◌≡◌, refl, ◌++◌, map, true, false, none, some, List, [], ◌∷◌, Str, bytes, same, keep,
  or_else, if◌then◌else◌,
}
use rust_ai_router.Base.Dict
use rust_ai_router.Base.Dict.{Dict}
use rust_ai_router.Config.Watcher.{data_modified}
use rust_ai_router.Dashboard.{health_json}
use rust_ai_router.Dashboard.Page.{
  PageRow, page_head, page_body, page_prefix, rows_text, health_dashboard,
}
use rust_ai_router.Dashboard.Page.Agree.{of_row, of_report, health_dashboard-health_json}
use rust_ai_router.Fail2ban.{banned_count}
use rust_ai_router.Health.{answered}
use rust_ai_router.Keys.Urls.{join}
use rust_ai_router.Proxy.Body.{ChatRequest}
use rust_ai_router.Proxy.Attempt.{Reply, limited}
use rust_ai_router.Proxy.Handler.Access.{Sent}
use rust_ai_router.Proxy.Headers.{Headers, is_hop_by_hop}
use rust_ai_router.Proxy.Headers.Kept.{last_value}
use rust_ai_router.Proxy.Limits.{team_shared}
use rust_ai_router.Proxy.Replies.{text_reply, own_headers, delivered_reply, chat_reply}
use rust_ai_router.Proxy.Replies.Errors.{IsError, chat_reply-IsError}
use rust_ai_router.Proxy.Generic.{GenericReply, no_endpoint}
use rust_ai_router.Proxy.Replies.Generic.{generic_reply, generic_reply-IsError}
use rust_ai_router.Proxy.Replies.Shown.{get-delivered_reply}
use rust_ai_router.RateLimit.Store.{token}
use rust_ai_router.Router.Balancer.{SelectedEndpoint, build_selected_endpoint}
use rust_ai_router.Samples.{milli, counting, memory, config, app, long_endpoint}
use rust_ai_router.Samples.Encoded.{encoded, encoded_laws}
use rust_ai_router.Server.{
  Method, get_method, post_method, Route, Dispatched, handled, fallback, method_not_allowed,
  ServerRequest, World, arguments,
}
use rust_ai_router.Server.System.{
  Event, request, health_round, limiter_cleanup, file_changes, Setting, System, run,
}
use rust_ai_router.Server.System.Sends.{Origin, run-Sent}

arguments_kept :
    arguments (bytes "-v" ∷ bytes "a.yaml" ∷ []) (some (bytes "b.yaml")) ≡ (true, bytes "a.yaml")
unfolding arguments
arguments_kept = refl

-- A way to find a handler: by the path alone, and then by the method.
abbrev named : Method → Str → Bool
named get_method method = same method (bytes "GET")
named post_method method = same method (bytes "POST")

abbrev exact : List (Str × Method × Route) → Str → Str → Dispatched
exact [] method path = fallback
exact ((p, m, route) ∷ rest) method path =
    if same p path
    then (if named m method then handled route else method_not_allowed)
    else exact rest method path

abbrev world : World ℕ
world = record {
  answers = λ n ep. record {
    now = 3;
    unix = 0;
    answered_at = 4;
    answer = some (200, encoded.to_vec encoded.null);
  };
  answer = λ ep. record { now = 3; unix = 0; answered_at = 4; answer = none };
  parse_url = λ url. none;
  percent = λ a b. [];
  version = bytes "0.1.0";
  fuel = 3;
}

abbrev asked : ServerRequest
asked = record {
  method = bytes "POST";
  path = bytes "/v1/chat/completions";
  path_and_query = bytes "/v1/chat/completions";
  authorization = some (bytes "Bearer sk-b");
  content_type = bytes "application/json";
  body =
      some (encoded.to_vec (encoded.object ((bytes "model", encoded.string (bytes "gpt")) ∷ [])));
  now = 3;
  unix = 0;
  date = [];
}

abbrev setting : Setting ℕ
setting = record {
  dispatch = exact;
  base_path = [];
  watched = record {
    path = bytes "/etc/config.yaml";
    file_name = bytes "config.yaml";
    ends_with = same;
    starts = true;
  };
  from_str = λ text. none;
}

abbrev start : System ℕ (ℕ × ℕ) (Dict ℕ × Dict Str)
start = record { config = config; app = app }

-- The file is written, and cannot be parsed; a request; a round of the checker and of the cleanup.
abbrev history : List (Event ℕ)
history =
    file_changes (record {
      kind = data_modified;
      paths = bytes "/etc/config.yaml" ∷ [];
      env = λ name. none;
      file = some (bytes "models:");
    })
    ∷ request world asked
    ∷ health_round (λ ep. (9, answered 200))
    ∷ limiter_cleanup 700
    ∷ []

run-Sent_example :
    Sent (Origin Str setting start history) start.app.sent (run Str setting history start).app.sent
run-Sent_example = run-Sent Str setting start history

abbrev refused : Reply ℕ
refused =
    limited team_shared
      (record { allowed = false; limit = 10; reset_after_secs = 60000; scope = token })

chat_reply-IsError_example : IsError Str (
    chat_reply Str
      (λ v. true)
      (λ n. bytes "60.0")
      (bytes "red")
      []
      []
      (λ kept ep status. text_reply status [])
      refused)
chat_reply-IsError_example =
    chat_reply-IsError encoded_laws (λ v. true) (λ n. bytes "60.0") (bytes "red") [] []
      (λ kept ep status. text_reply status []) refused refl

abbrev chosen : SelectedEndpoint ℕ
chosen = build_selected_endpoint long_endpoint 0 2

-- The endpoint names itself, and sets two cookies.
abbrev upstream : Headers
upstream =
    (bytes "x-endpoint-used", bytes "me")
    ∷ (bytes "set-cookie", bytes "a")
    ∷ (bytes "set-cookie", bytes "b")
    ∷ []

abbrev talking : ChatRequest
talking = record {
  upstream_path = bytes "/v1/chat/completions";
  body_bytes = [];
  model_name = bytes "gpt";
  is_stream = false;
  is_anthropic = false;
}

get-delivered_reply_example :
    Dict.get
      (delivered_reply Str
        (λ v. true)
        (λ n. [])
        talking
        []
        false
        chosen
        200
        upstream
        7
        (bytes "pod")
        []).headers
      (bytes "set-cookie")
    ≡ or_else
        (last_value
          (keep (λ h. true) (own_headers (λ n. []) chosen 7 (bytes "pod")))
          (bytes "set-cookie"))
        (if is_hop_by_hop (bytes "set-cookie")
          then none
          else last_value upstream (bytes "set-cookie"))
get-delivered_reply_example =
    get-delivered_reply Str (λ v. true) (λ n. []) talking [] false chosen 200 upstream 7
      (bytes "pod") [] (bytes "set-cookie")

health_dashboard-health_json_example :
    (rows : List PageRow) × ((health_dashboard
        (λ u. u)
        (λ a b. bytes "50")
        config
        (bytes "/ai")
        3
        app).0
      ≡ join 10 (
          page_head
          ++ page_body config
              (page_prefix (bytes "/ai"))
              (rows_text rows)
              (banned_count (health_json (λ u. u) config 3 app).1.limits.fail2ban.states 3)
              (health_json (λ u. u) config 3 app).1))
    × (map of_row rows ≡ map of_report (health_json (λ u. u) config 3 app).0.endpoints)
    × ((health_dashboard (λ u. u) (λ a b. bytes "50") config (bytes "/ai") 3 app).1
        ≡ (health_json (λ u. u) config 3 app).1)
health_dashboard-health_json_example =
    health_dashboard-health_json (λ u. u) (λ a b. bytes "50") config (bytes "/ai") 3 app

abbrev unserved : GenericReply ℕ
unserved = no_endpoint (bytes "embed")

generic_reply-IsError_example : IsError Str (
    generic_reply Str
      (λ v. true)
      (λ n. bytes "60.0")
      (bytes "red")
      []
      []
      (λ ep status. text_reply status [])
      unserved)
generic_reply-IsError_example =
    generic_reply-IsError encoded_laws (λ v. true) (λ n. bytes "60.0") (bytes "red") [] []
      (λ ep status. text_reply status []) unserved refl
