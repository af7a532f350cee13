-- ===== src/Stats.antt =====
-- src/stats/pg.rs: the statistics in PostgreSQL, with the feature `postgres`. The tables are the
-- state; each SQL statement of the source is a function on them, and whether the server executes it
-- is an argument. Times are in microseconds of UTC. Sums of BIGINT are not bounded.
pub mod Groups
pub mod History
pub mod Counted
pub mod Hourly
pub mod Stuck
use rust_ai_router.Base.{
  ℕ, zero, suc, ◌+◌, ◌-◌, ◌*◌, ◌/◌, ◌^◌, ◌==◌, Bool, true, false, not, ◌&&◌, Option, none, some,
  List, [], ◌∷◌, Str, same, contains, any, keep, map, length, is_empty, is_some, get_or, ltb, leb,
  if◌then◌else◌, Float,
}
use rust_ai_router.Base.Int.{ℤ, pos, negsuc, ◌+ℤ◌, wrap_i64}

-- A row of `requests`.
pub record RequestRow (F : Type 0) : Type 0 where
  pub timestamp : ℕ
  pub model : Str
  pub endpoint : Str
  pub team : Str
  pub tokens_prompt : ℤ
  pub tokens_completion : ℤ
  pub latency_ms : ℤ
  pub status : ℤ
  pub token_key_hash : Str
  pub cost_approx : F

-- A row of `token_usage_hourly`; the primary key is the hour with the hash.
pub record TokenUsage (F : Type 0) : Type 0 where
  pub hour : ℕ
  pub token_hash : Str
  pub team : Str
  pub requests : ℕ
  pub tokens_prompt : ℤ
  pub tokens_completion : ℤ
  pub cost_approx : F

-- A row of `team_usage_hourly`; the primary key is the hour with the team.
pub record TeamUsage (F : Type 0) : Type 0 where
  pub hour : ℕ
  pub team : Str
  pub requests : ℕ
  pub tokens_prompt : ℤ
  pub tokens_completion : ℤ
  pub active_tokens : ℕ
  pub cost_approx : F

-- The tables, with `last_ts` of `_aggregation_cursor`.
pub record Database (F : Type 0) : Type 0 where
  pub requests : List (RequestRow F)
  pub token_usage : List (TokenUsage F)
  pub team_usage : List (TeamUsage F)
  pub last_ts : ℕ

pub record StatsWriter (F : Type 0) : Type 0 where
  pub pool : Option (Database F)
  pub retention_days : ℕ
  pub cleanup_interval_secs : ℕ
  pub aggregation_interval_secs : ℕ

-- The statements of `run_aggregation`, each of which the server may fail to execute.
pub data Statement : Type 0 where
  begin_tx read_cursor insert_tokens insert_teams move_cursor commit_tx : Statement

abbrev pub hour_length : ℕ
hour_length = 3_600_000_000

-- `date_trunc('hour', timestamp)`, as the number of the hour
abbrev pub hour_of : ℕ → ℕ
hour_of timestamp = timestamp / hour_length

-- `n as i16` and `n as i32` of a number below twice `half`
abbrev pub as_signed : ℕ → ℕ → ℤ
as_signed half n = if ltb n half then pos n else negsuc (half + half - 1 - n)

-- `timestamp < NOW() - days`
abbrev pub is_older : ℤ → ℕ → ℕ → Bool
is_older (pos days) timestamp now = ltb (timestamp + days * 24 * hour_length) now
is_older (negsuc days) timestamp now = ltb timestamp (now + suc days * 24 * hour_length)

module _ {F : Type 0} where
  -- The tables as `new` creates them.
  abbrev pub created : ℕ → Database F
  created now = record {
    requests = [];
    token_usage = [];
    team_usage = [];
    last_ts = now - hour_length;
  }

  -- `StatsWriter::new`, with the database that the task has connected to, if it has.
  unfoldable pub new : Str → Bool → ℕ → ℕ → ℕ → Option (Database F) → StatsWriter F
  new database_url enabled retention_days cleanup aggregation connected = record {
    pool = if not enabled then none else if is_empty database_url then none else connected;
    retention_days = retention_days;
    cleanup_interval_secs = cleanup;
    aggregation_interval_secs = aggregation;
  }

  -- `start_background_tasks`: the seconds between two rounds of the cleanup, and of the aggregation.
  unfoldable pub start_background_tasks : StatsWriter F → Option ℕ × Option ℕ
  start_background_tasks w = (
    if ltb 0 w.cleanup_interval_secs && ltb 0 w.retention_days && is_some w.pool
        then some w.cleanup_interval_secs
        else none,
    if ltb 0 w.aggregation_interval_secs && is_some w.pool
        then some w.aggregation_interval_secs
        else none,
  )

  -- `run_cleanup`: three statements, each on its own.
  unfoldable pub run_cleanup : Bool → Bool → Bool → ℕ → ℕ → Database F → Database F
  run_cleanup first second third retention_days now db =
      let days = as_signed (2 ^ 31) retention_days in
      let kept =
        λ (hour : ℕ). not (is_older days (hour * hour_length) (hour_of now * hour_length)) in
      record db {
        requests =
            if first
            then keep (λ r. not (is_older days r.timestamp now)) db.requests
            else db.requests;
        token_usage = if second then keep (λ u. kept u.hour) db.token_usage else db.token_usage;
        team_usage = if third then keep (λ u. kept u.hour) db.team_usage else db.team_usage;
      }

-- `GROUP BY` and `ON CONFLICT DO UPDATE`.
module _ {G : Type 0} (same_key : G → G → Bool) (merge : G → G → G) where
  -- A row is merged with the one of its key, or put at the end.
  unfoldable pub upsert : List G → G → List G
  upsert [] g = g ∷ []
  upsert (e ∷ table) g = if same_key e g then merge e g ∷ table else e ∷ upsert table g

  -- A statement fails as a whole when it would write a row twice.
  unfoldable pub upsert_all : List G → List G → Option (List G)
  unfolding upsert
  upsert_all table [] = some table
  upsert_all table (g ∷ gs) =
      let rest = upsert_all (upsert table g) gs in if any (same_key g) gs then none else rest

  -- The groups of rows, each row given as the group of itself alone.
  unfoldable pub group_all : List G → List G
  unfolding upsert
  group_all [] = []
  group_all (g ∷ gs) = upsert (group_all gs) g

-- `COUNT(DISTINCT token_key_hash)` of a group
abbrev pub distinct : List Str → List Str
distinct [] = []
distinct (s ∷ rest) = let others = distinct rest in if contains others s then others else s ∷ others

module _ {F : Type 0} where
  -- The two selections: the group of one row, and when two groups are one.
  abbrev pub token_group : RequestRow F → TokenUsage F
  token_group r = record {
    hour = hour_of r.timestamp;
    token_hash = r.token_key_hash;
    team = r.team;
    requests = 1;
    tokens_prompt = r.tokens_prompt;
    tokens_completion = r.tokens_completion;
    cost_approx = r.cost_approx;
  }

  abbrev pub same_token_key : TokenUsage F → TokenUsage F → Bool
  same_token_key e g = e.hour == g.hour && same e.token_hash g.token_hash

  abbrev pub same_token_group : TokenUsage F → TokenUsage F → Bool
  same_token_group e g = same_token_key e g && same e.team g.team

  abbrev pub team_group : RequestRow F → TeamUsage F
  team_group r = record {
    hour = hour_of r.timestamp;
    team = r.team;
    requests = 1;
    tokens_prompt = r.tokens_prompt;
    tokens_completion = r.tokens_completion;
    active_tokens = 0;
    cost_approx = r.cost_approx;
  }

  abbrev pub same_team_key : TeamUsage F → TeamUsage F → Bool
  same_team_key e g = e.hour == g.hour && same e.team g.team

  unfoldable pub count_tokens : List (RequestRow F) → TeamUsage F → TeamUsage F
  count_tokens rows g = record g {
    active_tokens =
        length (
          distinct (map (λ r. r.token_key_hash) (keep (λ r. same_team_key (team_group r) g) rows)));
  }

  abbrev pub in_range : ℕ → ℕ → RequestRow F → Bool
  in_range from to r = leb from r.timestamp && ltb r.timestamp to

  -- What the transaction leaves: a statement that fails makes the server undo it at the commit.
  abbrev pub committed :
      Database F
      → ℕ
      → Bool
      → Option (List (TokenUsage F))
      → Option (List (TeamUsage F))
      → Database F
  committed db end_ts done none teams = db
  committed db end_ts done (some tokens) none = db
  committed db end_ts done (some tokens) (some teams) =
      if done then record db { token_usage = tokens; team_usage = teams; last_ts = end_ts } else db

module _ {F : Type 0} ⦃fl : Float F⦄ where
  -- The row of `record_request`.
  unfoldable pub new_row : Str → Str → Str → ℕ → ℕ → ℕ → ℕ → Option Str → F → F → ℕ → RequestRow F
  unfolding wrap_i64
  new_row model endpoint team tokens_prompt tokens_completion latency_ms status token_hash
        cost_prompt cost_completion now =
      let million = fl.of_u64 1_000_000 in
      let cost =
        fl.add (fl.mul (fl.div (fl.of_u64 tokens_prompt) million) cost_prompt)
          (fl.mul (fl.div (fl.of_u64 tokens_completion) million) cost_completion) in
      record {
        timestamp = now;
        model = model;
        endpoint = endpoint;
        team = team;
        tokens_prompt = wrap_i64 (pos tokens_prompt);
        tokens_completion = wrap_i64 (pos tokens_completion);
        latency_ms = wrap_i64 (pos latency_ms);
        status = as_signed (2 ^ 15) status;
        token_key_hash = get_or token_hash [];
        cost_approx = cost;
      }

  -- `record_request`, at the time `now`; `executed` is whether the server inserts the row.
  unfoldable pub record_request :
      Str
      → Str
      → Str
      → ℕ
      → ℕ
      → ℕ
      → ℕ
      → Option Str
      → F
      → F
      → Bool
      → ℕ
      → StatsWriter F
      → StatsWriter F
  unfolding new_row
  record_request model endpoint team tokens_prompt tokens_completion latency_ms status token_hash
        cost_prompt cost_completion executed now w =
      elim w.pool [
        | none ↦ w
        | some db ↦
            (let row =
                new_row model endpoint team tokens_prompt tokens_completion latency_ms status
                  token_hash cost_prompt cost_completion now in
              if executed
              then record w { pool = some (record db { requests = row ∷ db.requests }) }
              else w)
      ]

  abbrev pub merge_tokens : TokenUsage F → TokenUsage F → TokenUsage F
  merge_tokens e g = record e {
    requests = e.requests + g.requests;
    tokens_prompt = e.tokens_prompt +ℤ g.tokens_prompt;
    tokens_completion = e.tokens_completion +ℤ g.tokens_completion;
    cost_approx = fl.add e.cost_approx g.cost_approx;
  }

  abbrev pub merge_teams : TeamUsage F → TeamUsage F → TeamUsage F
  merge_teams e g = record e {
    requests = e.requests + g.requests;
    tokens_prompt = e.tokens_prompt +ℤ g.tokens_prompt;
    tokens_completion = e.tokens_completion +ℤ g.tokens_completion;
    active_tokens = e.active_tokens + g.active_tokens;
    cost_approx = fl.add e.cost_approx g.cost_approx;
  }

  -- The two `INSERT ... SELECT ... ON CONFLICT DO UPDATE`
  unfoldable pub insert_token_usage :
      List (RequestRow F) → List (TokenUsage F) → Option (List (TokenUsage F))
  unfolding upsert_all group_all
  insert_token_usage rows table =
      upsert_all same_token_key merge_tokens table
        (group_all same_token_group merge_tokens (map token_group rows))

  unfoldable pub insert_team_usage :
      List (RequestRow F) → List (TeamUsage F) → Option (List (TeamUsage F))
  unfolding upsert_all group_all count_tokens
  insert_team_usage rows table =
      upsert_all same_team_key merge_teams table
        (map (count_tokens rows) (group_all same_team_key merge_teams (map team_group rows)))

  -- `run_aggregation`
  unfoldable pub run_aggregation : (Statement → Bool) → ℕ → Database F → Database F
  unfolding insert_token_usage insert_team_usage
  run_aggregation executes now db =
      let end_ts = hour_of now * hour_length in
      let rows = keep (in_range db.last_ts end_ts) db.requests in
      if not (executes begin_tx && executes read_cursor)
      then db
      else if leb end_ts db.last_ts
      then db
      else committed db end_ts (executes move_cursor && executes commit_tx)
          (if executes insert_tokens then insert_token_usage rows db.token_usage else none)
          (if executes insert_teams then insert_team_usage rows db.team_usage else none)
