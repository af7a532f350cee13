-- ===== src/Tests/Stats.antt =====
-- src/stats/pg.rs on the requests of two teams without a token, in one hour.
use rust_ai_router.Base.{
  ℕ, ◌+◌, ◌*◌, ◌-◌, ◌≤◌, ◌≡◌, refl, true, false, ◌&&◌, none, some, List, [], ◌∷◌, Str, bytes, same,
  arith,
}
use rust_ai_router.Base.Int.{pos, wrap_i64}
use rust_ai_router.Proxy.Attempt.{Prepared}
use rust_ai_router.Proxy.Recorded.{generic_recorded}
use rust_ai_router.Proxy.Recorded.Stuck.{generic_recorded-stuck}
use rust_ai_router.Router.Balancer.{SelectedEndpoint, build_selected_endpoint}
use rust_ai_router.Samples.{milli, long_endpoint}
use rust_ai_router.Stats.{
  RequestRow, StatsWriter, Database, hour_length, hour_of, created, in_range, record_request,
  run_aggregation, new_row,
}
use rust_ai_router.Stats.Counted.{token_requests, team_requests, count, row_of_token, row_of_team}
use rust_ai_router.Stats.History.{Event, inserts, aggregates, run}
use rust_ai_router.Stats.Hourly.{run-counts}

-- The minute `at` of the tenth hour.
abbrev row : ℕ → Str → Str → RequestRow ℕ
row at team token_hash = record {
  timestamp = 10 * hour_length + at * 60_000_000;
  model = bytes "embed";
  endpoint = bytes "https://a.example";
  team = team;
  tokens_prompt = pos 7;
  tokens_completion = pos 0;
  latency_ms = pos 5;
  status = pos 200;
  token_key_hash = token_hash;
  cost_approx = 0;
}

abbrev empty_writer : StatsWriter ℕ
empty_writer = record {
  pool = some (created (10 * hour_length));
  retention_days = 30;
  cleanup_interval_secs = 3600;
  aggregation_interval_secs = 300;
}

-- What `proxy_generic` writes.
writes_row :
    record_request
      (bytes "embed")
      (bytes "https://a.example")
      (bytes "red")
      7
      0
      5
      200
      none
      0
      0
      true
      (10 * hour_length + 60_000_000)
      empty_writer
    ≡ record empty_writer {
      pool = some (record (created (10 * hour_length)) { requests = row 1 (bytes "red") [] ∷ [] });
    }
unfolding record_request new_row wrap_i64
writes_row = refl

abbrev two_tokens : List (Event ℕ)
two_tokens =
    inserts (row 1 (bytes "red") (bytes "a"))
    ∷ inserts (row 2 (bytes "blue") (bytes "b"))
    ∷ inserts (row 3 (bytes "red") (bytes "a"))
    ∷ aggregates (λ s. true) (12 * hour_length)
    ∷ []

aggregates_hour : (run two_tokens (created (10 * hour_length))).last_ts ≡ 12 * hour_length
unfolding run run_aggregation same
aggregates_hour = refl

run-counts_example :
    (token_requests 10 (bytes "a") (run two_tokens (created (10 * hour_length))).token_usage
      ≡ count
          (λ r.
            in_range
              (10 * hour_length - hour_length)
              (run two_tokens (created (10 * hour_length))).last_ts
              r
            && row_of_token 10 (bytes "a") r)
          (run two_tokens (created (10 * hour_length))).requests)
    × (team_requests 10 (bytes "red") (run two_tokens (created (10 * hour_length))).team_usage
        ≡ count
            (λ r.
              in_range
                (10 * hour_length - hour_length)
                (run two_tokens (created (10 * hour_length))).last_ts
                r
              && row_of_team 10 (bytes "red") r)
            (run two_tokens (created (10 * hour_length))).requests)
run-counts_example =
    run-counts (10 * hour_length) two_tokens 10 (bytes "a") (bytes "red") (omega arith)

-- Two teams ask for embeddings, in the same hour.
abbrev by_team : Str → Prepared
by_team team = record {
  token_key = bytes "sk-a";
  team = team;
  token_tpm = 0;
  canonical_model = bytes "embed";
  is_stream = false;
  session_id = none;
  banned_keys = [];
}

abbrev embedder : SelectedEndpoint ℕ
embedder = build_selected_endpoint long_endpoint 0 1

generic_recorded-stuck_example :
    (written : Database ℕ) × ((generic_recorded
        (by_team (bytes "blue"))
        embedder
        (9, 0)
        5
        200
        true
        (10 * hour_length + 120_000_000)
        (generic_recorded
          (by_team (bytes "red"))
          embedder
          (7, 0)
          5
          200
          true
          (10 * hour_length + 60_000_000)
          empty_writer)).pool
      ≡ some written)
    × ((run (aggregates (λ s. true) (12 * hour_length) ∷ two_tokens) written).last_ts
        ≤ hour_of (10 * hour_length + 60_000_000) * hour_length)
unfolding same
generic_recorded-stuck_example =
    generic_recorded-stuck (by_team (bytes "red")) (by_team (bytes "blue")) embedder embedder (7, 0)
      (9, 0) 5 5 200 200 (10 * hour_length + 60_000_000) (10 * hour_length + 120_000_000)
      empty_writer (created (10 * hour_length))
      (aggregates (λ s. true) (12 * hour_length) ∷ two_tokens) refl refl refl refl refl
      (omega arith)
