-- ===== src/Stats/History.antt =====
-- src/stats/pg.rs: histories of the database, and what one run of `run_aggregation` may do.
use rust_ai_router.Base.{
  ℕ, ◌*◌, ◌≤◌, ◌<◌, ◌≡◌, ◌⊎◌, refl, Bool, true, false, ◌&&◌, Option, none, some, List, [], ◌∷◌,
  keep, leb, if◌then◌else◌, Bool-cases, Float, inl, inr, arith,
}
use rust_ai_router.Stats.{
  RequestRow, TokenUsage, TeamUsage, Database, Statement, begin_tx, read_cursor, insert_tokens,
  insert_teams, move_cursor, commit_tx, hour_length, hour_of, in_range, insert_token_usage,
  insert_team_usage, committed, run_aggregation,
}

-- A row is inserted, at its timestamp, or an aggregation runs at a time.
pub data Event (F : Type 0) : Type 0 where
  inserts : RequestRow F → Event F
  aggregates : (Statement → Bool) → ℕ → Event F

module _ {F : Type 0} where
  abbrev pub Ordered : ℕ → List (Event F) → Type 0
  Ordered last [] = Unit
  Ordered last (inserts r ∷ events) = (last ≤ r.timestamp) × Ordered r.timestamp events
  Ordered last (aggregates executes now ∷ events) = (last ≤ now) × Ordered now events

module _ {F : Type 0} ⦃fl : Float F⦄ where
  unfoldable pub run : List (Event F) → Database F → Database F
  run [] db = db
  run (inserts r ∷ events) db = run events (record db { requests = r ∷ db.requests })
  run (aggregates executes now ∷ events) db = run events (run_aggregation executes now db)

  -- The rows that an aggregation at a time reads.
  abbrev pub rows_at : ℕ → Database F → List (RequestRow F)
  rows_at now db = keep (in_range db.last_ts (hour_of now * hour_length)) db.requests

  -- An aggregation that moves the cursor has put its rows into both tables.
  pub record Moved (now : ℕ) (before after : Database F) : Type 0 where
    pub later : before.last_ts < hour_of now * hour_length
    pub tokens : insert_token_usage (rows_at now before) before.token_usage ≡ some after.token_usage
    pub teams : insert_team_usage (rows_at now before) before.team_usage ≡ some after.team_usage
    pub same_requests : after.requests ≡ before.requests
    pub cursor : after.last_ts ≡ hour_of now * hour_length

  committed-cases :
      (now : ℕ) (db : Database F) (done : Bool) (tokens : Option (List (TokenUsage F)))
      (teams : Option (List (TeamUsage F))) (a b : Bool)
      → db.last_ts < hour_of now * hour_length
      → (insert_token_usage (rows_at now db) db.token_usage ≡ tokens)
      → (insert_team_usage (rows_at now db) db.team_usage ≡ teams)
      → (committed db
            (hour_of now * hour_length)
            done
            (if a then tokens else none)
            (if b then teams else none)
          ≡ db)
        ⊎ Moved now db (
            committed db
              (hour_of now * hour_length)
              done
              (if a then tokens else none)
              (if b then teams else none))
  committed-cases now db done tokens teams false b h e f = inl refl
  committed-cases now db done none teams true b h e f = inl refl
  committed-cases now db done (some t) teams true false h e f = inl refl
  committed-cases now db done (some t) none true true h e f = inl refl
  committed-cases now db false (some t) (some g) true true h e f = inl refl
  committed-cases now db true (some t) (some g) true true h e f =
      inr (record { later = h; tokens = e; teams = f; same_requests = refl; cursor = refl })

  -- Each run leaves the database as it is, or aggregates all rows up to the present hour.
  pub run_aggregation-cases :
      (executes : Statement → Bool) (now : ℕ) (db : Database F)
      → (run_aggregation executes now db ≡ db) ⊎ Moved now db (run_aggregation executes now db)
  unfolding run_aggregation
  run_aggregation-cases executes now db =
      elim (Bool-cases (executes begin_tx && executes read_cursor)) [
        | inr e ↦ inl (rw e refl)
        | inl e ↦ elim (Bool-cases (leb (hour_of now * hour_length) db.last_ts)) [
          | inl done ↦ inl (rw (e, done) refl)
          | inr more ↦
              rw (e, more)
                (committed-cases now db (executes move_cursor && executes commit_tx)
                  (insert_token_usage (rows_at now db) db.token_usage)
                  (insert_team_usage (rows_at now db) db.team_usage) (executes insert_tokens)
                  (executes insert_teams) (ground (arith, more)) refl refl)
        ]
      ]
