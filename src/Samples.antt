-- ===== src/Samples.antt =====
-- A small configuration and concrete stand-ins for the parameters, on which the tests run.
pub mod Encoded
use rust_ai_router.Base.{
  ℕ, ◌+◌, ◌*◌, ◌/◌, false, none, some, [], ◌∷◌, bytes, ltb, if◌then◌else◌, Float, Str, get_or,
  is_some, from_secs,
}
use rust_ai_router.Base.Int.{pos_part}
use rust_ai_router.Config.{
  AppConfig, ModelConfig, EndpointConfig, default_timeouts, default_max_body_size, default_fail2ban,
  default_stats, default_session, default_sync, default_fail_codes,
}
use rust_ai_router.Auth.{AuthContext}
use rust_ai_router.Base.Dict
use rust_ai_router.Base.Dict.{Dict}
use rust_ai_router.Fail2ban
use rust_ai_router.Fail2ban.{Fail2ban}
use rust_ai_router.Health.{empty_store}
use rust_ai_router.Proxy.Attempt.{Outcome, Round, Prepared}
use rust_ai_router.Proxy.Handler.{ProxyRequest}
use rust_ai_router.Proxy.State.{AppState}
use rust_ai_router.RateLimit.Store.{Governor}
use rust_ai_router.Router.Balancer.{SelectedEndpoint}
use rust_ai_router.Router.Sticky
use rust_ai_router.Sync.{Redis}

-- Thousandths stand in for `f64`.
instance abbrev pub milli : Float ℕ
milli = record {
  of_u64 = λ n. n * 1000;
  of_i64 = λ z. pos_part z * 1000;
  of_nanos = λ n. n / 1_000_000;
  add = λ a b. a + b;
  mul = λ a b. a * b / 1000;
  div = λ a b. a * 1000 / b;
  gt = λ a b. ltb b a;
}

-- A quota and the requests counted so far; a full minute is the wait. No time passes.
instance abbrev pub counting : Governor (ℕ × ℕ)
counting = record {
  per_minute = λ quota. (quota, 0);
  check_key = λ g key now. if ltb g.1 g.0 then (none, (g.0, g.1 + 1)) else (some 60_000_000_000, g);
}

-- Endpoints of equal weight, one with a long key and one with a key of six bytes.
abbrev pub long_endpoint : EndpointConfig ℕ
long_endpoint = record {
  url = bytes "https://a.example";
  key = bytes "sk-0123456789";
  limits = none;
  cost = none;
  weight = 2;
  headers = [];
}

abbrev pub short_endpoint : EndpointConfig ℕ
short_endpoint = record long_endpoint {
  url = bytes "https://b.example";
  key = bytes "sk-111";
  weight = 0;
}

abbrev pub chat_model : ModelConfig ℕ
chat_model = record {
  name = bytes "gpt-4";
  aliases = bytes "gpt" ∷ [];
  endpoints = long_endpoint ∷ short_endpoint ∷ [];
  model_type = bytes "chat";
}

abbrev pub single_model : ModelConfig ℕ
single_model = record chat_model {
  name = bytes "solo";
  aliases = [];
  endpoints = long_endpoint ∷ [];
}

abbrev pub brief_model : ModelConfig ℕ
brief_model = record chat_model {
  name = bytes "brief";
  aliases = [];
  endpoints = short_endpoint ∷ record short_endpoint { url = bytes "https://c.example" } ∷ [];
}

abbrev pub config : AppConfig ℕ
config = record {
  server = record {
    listen = bytes "0.0.0.0:8080";
    base_path = [];
    timeouts = default_timeouts;
    max_body_size = default_max_body_size;
  };
  teams =
      record {
        name = bytes "default";
        models = bytes "*" ∷ [];
        limits = some (record { rpm = 50; tpm = 0 });
        cost_multiplier = none;
      }
      ∷ [];
  tokens =
      record { key = bytes "sk-a"; team = bytes "default"; models = none; limits = none }
      ∷ record {
        key = bytes "sk-b";
        team = bytes "default";
        models = some (bytes "gpt-4" ∷ []);
        limits = some (record { rpm = 5; tpm = 100 });
      }
      ∷ [];
  models = chat_model ∷ single_model ∷ brief_model ∷ [];
  fail2ban = default_fail2ban;
  stats = default_stats;
  session = default_session;
  sync = default_sync;
}

-- A Redis server: the counters and the texts. Nothing expires, and no command fails.
instance abbrev pub memory : Redis (Dict ℕ × Dict Str)
memory = record {
  incr = λ conn key. (
    some (get_or (Dict.get conn.0 key) 0 + 1),
    (Dict.put conn.0 key (get_or (Dict.get conn.0 key) 0 + 1), conn.1),
  );
  expire = λ conn key secs. conn;
  set_ex = λ conn key value secs. (conn.0, Dict.put conn.1 key value);
  exists_key = λ conn key. (some (is_some (Dict.get conn.1 key)), conn);
  get_value = λ conn key. (some (Dict.get conn.1 key), conn);
}

-- The state of the program when it starts, with a Redis server.
abbrev pub breaker : Fail2ban ℕ
breaker = Fail2ban.new 3 60 50_000 default_fail_codes

abbrev pub app : AppState ℕ (ℕ × ℕ) (Dict ℕ × Dict Str)
app = record {
  router = [];
  limits = record {
    limiters = [];
    fail2ban = breaker;
    sync = record { conn = some ([], []); prefix = bytes "ai" };
  };
  session = record { sticky = Sticky.new 300; sticky_ttl_secs = 300 };
  health_store = empty_store;
  live_stats = record {
    requests_total = 0;
    requests_by_token = [];
    requests_by_team = [];
    requests_by_endpoint = [];
    errors_by_token = [];
    errors_by_team = [];
    errors_by_endpoint = [];
  };
  sent = [];
}

-- A token, a body for a model, and the two together.
abbrev pub context : AuthContext ℕ
context = record {
  token_key = bytes "sk-b";
  team = bytes "default";
  models = bytes "gpt-4" ∷ [];
  rpm = 5;
  tpm = 100;
  cost_multiplier = 1000;
}

abbrev pub asking : Str → ProxyRequest ℕ
asking name = record {
  auth = some context;
  body = some (record { model_name = name; is_stream = false; session_id = some (bytes "s1") });
  now = from_secs 5;
  unix = 1005;
}

abbrev pub prepared : Str → Prepared
prepared name = record {
  token_key = bytes "sk-b";
  team = bytes "default";
  token_tpm = 100;
  canonical_model = name;
  is_stream = false;
  session_id = none;
  banned_keys = [];
}

-- A world in which all answer the same.
abbrev pub always : Outcome → ℕ → SelectedEndpoint ℕ → Round
always outcome n ep = record {
  now = from_secs (10 + n);
  unix = 1010 + n;
  answered_at = from_secs (10 + n) + 7_000_000;
  outcome = outcome;
}
