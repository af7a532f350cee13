-- ===== src/Keys.antt =====
-- Masked API keys, and the keys by which endpoints, teams and tokens are known. Two functions
-- named `mask_key` differ: that of src/router/balancer.rs shows three bytes at each end, those of
-- src/utils.rs, src/proxy/handler.rs, src/config/loader.rs and src/health/dashboard.rs four.
-- A Rust slice that cuts a multi-byte character panics: API keys and URLs are ASCII here.
pub mod Clash
pub mod Urls
use rust_ai_router.Base.{ℕ, ◌-◌, ◌++◌, Str, bytes, length, take, drop, leb, if◌then◌else◌}
use rust_ai_router.Config.{EndpointConfig}

-- `format!("{}...{}", &key[..n], &key[key.len() - n..])`
abbrev pub ends_of : ℕ → Str → Str
ends_of n key = take n key ++ bytes "..." ++ drop (length key - n) key

-- `mask_key` of src/utils.rs, and its copies in the handler, the loader and the dashboard
unfoldable pub mask_key : Str → Str
mask_key key = if leb (length key) 8 then bytes "***" else ends_of 4 key

-- `mask_key` of src/router/balancer.rs
unfoldable pub mask_key_short : Str → Str
mask_key_short key = if leb (length key) 6 then bytes "***" else ends_of 3 key

module _ {F : Type 0} where
  -- The key under which the handler and the health checker ban an endpoint and mark it as tried.
  unfoldable pub endpoint_key : EndpointConfig F → Str
  endpoint_key ep = ep.url ++ bytes ":" ++ mask_key ep.key

  -- The key under which the router looks for it.
  unfoldable pub router_key : EndpointConfig F → Str
  router_key ep = ep.url ++ bytes ":" ++ mask_key_short ep.key

-- `format!("team:{team}")`
unfoldable pub team_limit_key : Str → Str
team_limit_key team = bytes "team:" ++ team

-- `format!("ep:{ep_key}")`
unfoldable pub endpoint_limit_key : Str → Str
endpoint_limit_key ep_key = bytes "ep:" ++ ep_key
