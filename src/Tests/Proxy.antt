-- ===== src/Tests/Proxy.antt =====
-- src/proxy/handler.rs and src/health/checker.rs on the sample configuration.
use rust_ai_router.Auth.{AuthContext}
use rust_ai_router.Base.{
  ℕ, zero, suc, ◌≡◌, refl, ◌⊎◌, true, false, none, some, [], ◌∷◌, Str, bytes, same, from_secs,
  arith,
}
use rust_ai_router.Base.Dict.{Dict, get}
use rust_ai_router.Config.{canonical_model_name, token_has_model_access, find_model}
use rust_ai_router.Keys.{endpoint_key, router_key, mask_key, mask_key_short, team_limit_key}
use rust_ai_router.Proxy.Attempt.{network_error, answered, Reply, Turn, selected_key}
use rust_ai_router.Proxy.Handler.{ParsedBody, proxy_handler, retry_loop}
use rust_ai_router.Proxy.Handler.Access.{Sent, OfModel, proxy_handler-sends}
use rust_ai_router.Proxy.Handler.Loop.Ends.{Fresh, SameKeys, retry_loop-ends}
use rust_ai_router.Proxy.Handler.Loop.Never.{At, OtherKeys, retry_loop-never}
use rust_ai_router.Proxy.Limits.{Limited, team_local, check_team_limits, check_all_rate_limits}
use rust_ai_router.Proxy.Limits.Order.{team_refusal-spares_token}
use rust_ai_router.Proxy.State.{AppState, with_limiters}
use rust_ai_router.RateLimit.Store.{RateLimitResult, token, check, check_rpm, check_tpm}
use rust_ai_router.RateLimit.Tpm
use rust_ai_router.Sync.{check_rate_limit}
use rust_ai_router.Router.Balancer.{build_selected_endpoint}
use rust_ai_router.Samples.{
  milli, counting, memory, config, app, asking, prepared, always, single_model, brief_model,
  long_endpoint, short_endpoint,
}

proxy_handler-sends_example :
    ((proxy_handler config (asking (bytes "gpt-4")) (always (answered 200 3 4)) 3 app).1.sent
      ≡ app.sent)
    ⊎ ((ctx : AuthContext ℕ) × (body : ParsedBody) × ((asking (bytes "gpt-4")).auth ≡ some ctx)
        × ((asking (bytes "gpt-4")).body ≡ some body)
        × (token_has_model_access config ctx.token_key (canonical_model_name config body.model_name)
            ≡ true)
        × Sent
            (OfModel config (canonical_model_name config body.model_name))
            app.sent
            (proxy_handler config
              (asking (bytes "gpt-4"))
              (always (answered 200 3 4))
              3
              app).1.sent)
proxy_handler-sends_example =
    proxy_handler-sends config (asking (bytes "gpt-4")) (always (answered 200 3 4)) 3 app

-- The brief model has two endpoints whose keys have six bytes.
abbrev brief_turn : Turn ℕ
brief_turn = record {
  current_endpoint = build_selected_endpoint short_endpoint 0 2;
  tried_keys = [];
  last_error_response = none;
}

brief_known : find_model config (prepared (bytes "brief")).canonical_model ≡ some brief_model
unfolding find_model same
brief_known = refl

brief_keys : SameKeys brief_model
unfolding router_key endpoint_key mask_key mask_key_short
brief_keys zero ep e = grind arith
brief_keys (suc zero) ep e = grind arith
brief_keys (suc (suc i)) ep e = absurd (ground arith)

brief-Fresh : Fresh brief_model brief_turn
unfolding selected_key build_selected_endpoint endpoint_key
brief-Fresh = record {
  place = 0;
  ep = short_endpoint;
  found = refl;
  keyed = refl;
  untouched = refl;
}

retry_loop-ends_example :
    (reply : Reply ℕ) × ((retry_loop config
        (prepared (bytes "brief"))
        (always network_error)
        2
        0
        app
        brief_turn).0
      ≡ some reply)
retry_loop-ends_example =
    retry_loop-ends config (prepared (bytes "brief")) (always network_error) brief_model app
      brief_turn brief_known brief_keys brief-Fresh

-- The model with one endpoint, whose key has 13 bytes.
abbrev solo_turn : Turn ℕ
solo_turn = record {
  current_endpoint = build_selected_endpoint long_endpoint 0 1;
  tried_keys = [];
  last_error_response = none;
}

solo_known : find_model config (prepared (bytes "solo")).canonical_model ≡ some single_model
unfolding find_model same
solo_known = refl

solo_keys : OtherKeys single_model
unfolding router_key endpoint_key mask_key mask_key_short same
solo_keys zero zero ep other e e' = grind arith
solo_keys zero (suc j) ep other e e' = absurd (ground arith)
solo_keys (suc i) j ep other e e' = absurd (ground arith)

solo-At : At single_model solo_turn.current_endpoint
unfolding selected_key build_selected_endpoint endpoint_key
solo-At = record { place = 0; ep = long_endpoint; found = refl; keyed = refl }

retry_loop-never_example :
    (retry_loop config (prepared (bytes "solo")) (always network_error) 100 0 app solo_turn).0
    ≡ none
retry_loop-never_example =
    retry_loop-never config (prepared (bytes "solo")) (always network_error) single_model solo_known
      (omega arith) solo_keys (λ i ep e. refl) refl refl (λ n s. refl) 100 0 app solo_turn solo-At
      (λ i ep e. refl)

-- The team has used up its 50 requests.
abbrev spent : AppState ℕ (ℕ × ℕ) (Dict ℕ × Dict Str)
spent = with_limiters app (
    (
      team_limit_key (bytes "default"),
      record { rpm = (50, 50); tpm = Tpm.new 0 0; last_used = 1000 },
    )
    ∷ [])

abbrev refusal : Limited × RateLimitResult ℕ
refusal =
    (team_local, record { allowed = false; limit = 50; reset_after_secs = 60_000; scope = token })

apart : same (team_limit_key (bytes "default")) (bytes "sk-b") ≡ false
unfolding same team_limit_key
apart = refl

refused : (check_team_limits config spent (bytes "default") (from_secs 6) 1006).0 ≡ some refusal
unfolding check_team_limits same check_rate_limit get check check_rpm
    rust_ai_router.RateLimit.Store.get_or_create team_limit_key
refused = refl

team_refusal-spares_token_example :
    ((check_all_rate_limits config spent
        (bytes "default")
        (bytes "sk-b")
        5
        100
        (from_secs 6)
        1006).0
      ≡ some refusal)
    × (get
          (check_all_rate_limits config spent
            (bytes "default")
            (bytes "sk-b")
            5
            100
            (from_secs 6)
            1006).1.limits.limiters
          (bytes "sk-b")
        ≡ get spent.limits.limiters (bytes "sk-b"))
team_refusal-spares_token_example =
    team_refusal-spares_token config spent (bytes "default") (bytes "sk-b") 5 100 (from_secs 6) 1006
      refusal apart refused
