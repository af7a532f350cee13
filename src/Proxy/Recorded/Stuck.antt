-- ===== src/Proxy/Recorded/Stuck.antt =====
-- src/proxy/handler.rs and src/stats/pg.rs: two answers of `proxy_generic` that stop the aggregation.
use rust_ai_router.Base.{
  ℕ, ◌*◌, ◌≤◌, ◌≡◌, refl, true, false, none, some, List, [], ◌∷◌, same, same_refl, ==_iff, Float,
  arith,
}
use rust_ai_router.Proxy.Attempt.{Prepared}
use rust_ai_router.Proxy.Recorded.{generic_recorded}
use rust_ai_router.Router.Balancer.{SelectedEndpoint}
use rust_ai_router.Stats.{
  RequestRow, Database, StatsWriter, hour_length, hour_of, new_row, record_request,
}
use rust_ai_router.Stats.History.{Event, run}
use rust_ai_router.Stats.Stuck.{row_in, run-stuck}

module _ {F : Type 0} ⦃fl : Float F⦄ where
  -- The row that stands for an answer.
  abbrev generic_row : Prepared → SelectedEndpoint F → ℕ × ℕ → ℕ → ℕ → ℕ → RequestRow F
  generic_row p ep (prompt, completion) latency_ms status now =
      new_row p.canonical_model ep.url p.team prompt completion latency_ms status none
        ep.cost_prompt ep.cost_completion now

  generic_recorded-generic_row :
      (p : Prepared) (ep : SelectedEndpoint F) (tokens : ℕ × ℕ) (latency_ms status now : ℕ)
      (w : StatsWriter F) (db : Database F)
      → p.is_stream ≡ false
      → w.pool ≡ some db
      → (generic_recorded p ep tokens latency_ms status true now w).pool
        ≡ some
            (record db { requests = generic_row p ep tokens latency_ms status now ∷ db.requests })
  unfolding generic_recorded record_request
  generic_recorded-generic_row p ep tokens latency_ms status now w db plain pool =
      rw (plain, pool) refl

  row_in-generic_row :
      (p : Prepared) (ep : SelectedEndpoint F) (tokens : ℕ × ℕ) (latency_ms status now hour : ℕ)
      → hour_of now ≡ hour
      → row_in hour [] p.team (generic_row p ep tokens latency_ms status now) ≡ true
  unfolding new_row same
  row_in-generic_row p ep tokens latency_ms status now hour at =
      rw (same_refl p.team, (==_iff (hour_of now) hour).1 at) refl

  -- Two answers of `proxy_generic` that are written, for two teams, in one hour, when the aggregation
  -- has not got past the beginning of that hour: it does not get past it either afterwards, whatever
  -- rows are inserted and however often it runs.
  pub generic_recorded-stuck :
      (p q : Prepared) (ep ep' : SelectedEndpoint F) (tokens tokens' : ℕ × ℕ)
      (latency_ms latency_ms' status status' now later : ℕ) (w : StatsWriter F) (db : Database F)
      (events : List (Event F))
      → p.is_stream ≡ false
      → q.is_stream ≡ false
      → same p.team q.team ≡ false
      → hour_of later ≡ hour_of now
      → w.pool ≡ some db
      → db.last_ts ≤ hour_of now * hour_length
      → (written : Database F) × ((generic_recorded q ep' tokens' latency_ms' status' true later
            (generic_recorded p ep tokens latency_ms status true now w)).pool
          ≡ some written)
        × ((run events written).last_ts ≤ hour_of now * hour_length)
  generic_recorded-stuck p q ep ep' tokens tokens' latency_ms latency_ms' status status' now later w
        db events plain plain' apart one_hour pool begun =
      let row = generic_row p ep tokens latency_ms status now in
      let row' = generic_row q ep' tokens' latency_ms' status' later in
      let noted = record db { requests = row ∷ db.requests } in
      let one = row_in-generic_row p ep tokens latency_ms status now (hour_of now) refl in
      let two = row_in-generic_row q ep' tokens' latency_ms' status' later (hour_of now) one_hour in
      (
        record noted { requests = row' ∷ noted.requests },
        generic_recorded-generic_row q ep' tokens' latency_ms' status' later
            (generic_recorded p ep tokens latency_ms status true now w) noted plain'
            (generic_recorded-generic_row p ep tokens latency_ms status now w db plain pool),
        run-stuck events (hour_of now) [] p.team q.team _ apart (ground (arith, one))
            (ground (arith, two)) begun,
      )
