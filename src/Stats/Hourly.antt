-- ===== src/Stats/Hourly.antt =====
-- src/stats/pg.rs: what the hourly tables hold after any history of insertions and aggregations.
use rust_ai_router.Base.{
  ℕ, ◌-◌, ◌*◌, ◌≤◌, ◌≡◌, refl, false, ◌&&◌, List, [], ◌∷◌, Str, ltb, inl, inr, arith, Float,
}
use rust_ai_router.Stats.{
  RequestRow, Database, hour_length, hour_of, created, in_range, run_aggregation,
}
use rust_ai_router.Stats.History.{
  Event, inserts, aggregates, Ordered, run, rows_at, Moved, run_aggregation-cases,
}
use rust_ai_router.Stats.Counted.{
  token_requests, team_requests, count, row_of_token, row_of_team, counted-range,
  token_requests-insert, team_requests-insert,
}

module _ {F : Type 0} ⦃fl : Float F⦄ where
  -- Both tables count the rows from `start` up to the cursor, which is not later than `time`.
  record Tallied (start time : ℕ) (db : Database F) : Type 0 where
    begun : start ≤ db.last_ts
    past : db.last_ts ≤ time
    tokens :
        (hour : ℕ) (token_hash : Str)
        → token_requests hour token_hash db.token_usage
          ≡ count (λ r. in_range start db.last_ts r && row_of_token hour token_hash r) db.requests
    teams :
        (hour : ℕ) (team : Str)
        → team_requests hour team db.team_usage
          ≡ count (λ r. in_range start db.last_ts r && row_of_team hour team r) db.requests

  inserted-Tallied :
      (start time : ℕ) (db : Database F) (r : RequestRow F)
      → Tallied start time db
      → time ≤ r.timestamp
      → Tallied start r.timestamp (record db { requests = r ∷ db.requests })
  inserted-Tallied start time db r t h =
      let late : ltb r.timestamp db.last_ts ≡ false = ground (arith, t.past) in
      record {
        begun = t.begun;
        past = omega (arith, t.past);
        tokens = λ hour token_hash. ground (arith, late, t.tokens hour token_hash);
        teams = λ hour team. ground (arith, late, t.teams hour team);
      }

  Moved-Tallied :
      (start time now : ℕ) (db after : Database F)
      → Tallied start time db
      → Moved now db after
      → Tallied start now after
  Moved-Tallied start time now db after t m = record {
    begun = omega (arith, m.later, m.cursor, t.begun);
    past = omega (arith, m.cursor);
    tokens = λ hour token_hash.
        rw (m.cursor, m.same_requests)
          (counted-range start db.last_ts (hour_of now * hour_length) db.requests
            (row_of_token hour token_hash) _ _ t.begun (omega (arith, m.later))
            (t.tokens hour token_hash)
            (token_requests-insert hour token_hash (rows_at now db) db.token_usage after.token_usage
              m.tokens));
    teams = λ hour team.
        rw (m.cursor, m.same_requests)
          (counted-range start db.last_ts (hour_of now * hour_length) db.requests
            (row_of_team hour team) _ _ t.begun (omega (arith, m.later)) (t.teams hour team)
            (team_requests-insert hour team (rows_at now db) db.team_usage after.team_usage
              m.teams));
  }

  run-Tallied :
      (start time : ℕ) (events : List (Event F)) (db : Database F)
      → Tallied start time db
      → Ordered time events
      → (later : ℕ) × Tallied start later (run events db)
  unfolding run
  run-Tallied start time [] db t h = (time, t)
  run-Tallied start time (inserts r ∷ events) db t h =
      run-Tallied start r.timestamp events (record db { requests = r ∷ db.requests })
        (inserted-Tallied start time db r t h.0) h.1
  run-Tallied start time (aggregates executes now ∷ events) db t h =
      elim (run_aggregation-cases executes now db) [
        | inl same_db ↦
            let t' : Tallied start now db = record {
              begun = t.begun;
              past = omega (arith, t.past, h.0);
              tokens = t.tokens;
              teams = t.teams;
            } in
            rw same_db (run-Tallied start now events db t' h.1)
        | inr m ↦
            run-Tallied start now events (run_aggregation executes now db)
              (Moved-Tallied start time now db (run_aggregation executes now db) t m) h.1
      ]

  -- However rows are inserted and aggregations run, in order of time and with any statement failing
  -- at any time, each request from an hour before the tables were created up to the cursor is
  -- counted exactly once: an hour and a token, and an hour and a team, have as many requests in the
  -- hourly tables as there are such rows.
  pub run-counts :
      (now : ℕ) (events : List (Event F)) (hour : ℕ) (token_hash team : Str)
      → Ordered now events
      → (token_requests hour token_hash (run events (created now)).token_usage
          ≡ count
              (λ r.
                in_range (now - hour_length) (run events (created now)).last_ts r
                && row_of_token hour token_hash r)
              (run events (created now)).requests)
        × (team_requests hour team (run events (created now)).team_usage
            ≡ count
                (λ r.
                  in_range (now - hour_length) (run events (created now)).last_ts r
                  && row_of_team hour team r)
                (run events (created now)).requests)
  run-counts now events hour token_hash team h =
      let start : Tallied (now - hour_length) now (created now) = record {
        begun = omega arith;
        past = omega arith;
        tokens = λ hour token_hash. refl;
        teams = λ hour team. refl;
      } in
      let (later, t) = run-Tallied (now - hour_length) now events (created now) start h in
      (t.tokens hour token_hash, t.teams hour team)
