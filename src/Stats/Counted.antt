-- ===== src/Stats/Counted.antt =====
-- src/stats/pg.rs: the requests that the hourly tables count, and what an `INSERT` adds to them.
use rust_ai_router.Base.{
  ℕ, ◌+◌, ◌≤◌, ◌==◌, ◌≡◌, refl, Bool, ◌&&◌, some, List, [], ◌∷◌, Str, same, same_iff, ==_iff, keep,
  map, arith, Float,
}
use rust_ai_router.Stats.{
  RequestRow, TokenUsage, TeamUsage, hour_of, token_group, team_group, same_token_key,
  same_token_group, same_team_key, merge_tokens, merge_teams, count_tokens, in_range,
  insert_token_usage, insert_team_usage, group_all,
}
use rust_ai_router.Stats.Groups.{total, total-keep, IsAdditive, total-upsert_all, total-group_all}

module _ {F : Type 0} where
  -- The requests of an hour and a token, or of an hour and a team: in a table, and among the rows.
  abbrev pub of_token : ℕ → Str → TokenUsage F → Bool
  of_token hour token_hash u = u.hour == hour && same u.token_hash token_hash

  abbrev pub of_team : ℕ → Str → TeamUsage F → Bool
  of_team hour team u = u.hour == hour && same u.team team

  abbrev pub token_requests : ℕ → Str → List (TokenUsage F) → ℕ
  token_requests hour token_hash = total (of_token hour token_hash) (λ u. u.requests)

  abbrev pub team_requests : ℕ → Str → List (TeamUsage F) → ℕ
  team_requests hour team = total (of_team hour team) (λ u. u.requests)

  abbrev pub count : (RequestRow F → Bool) → List (RequestRow F) → ℕ
  count p = total p (λ _. 1)

  -- A row of a token or of a team, in an hour.
  abbrev pub row_of_token : ℕ → Str → RequestRow F → Bool
  row_of_token hour token_hash r = hour_of r.timestamp == hour && same r.token_key_hash token_hash

  abbrev pub row_of_team : ℕ → Str → RequestRow F → Bool
  row_of_team hour team r = hour_of r.timestamp == hour && same r.team team

  token_rows :
      (hour : ℕ) (token_hash : Str) (rows : List (RequestRow F))
      → token_requests hour token_hash (map token_group rows)
        ≡ count (row_of_token hour token_hash) rows
  token_rows hour token_hash [] = refl
  token_rows hour token_hash (r ∷ rows) = omega (arith, token_rows hour token_hash rows)

  team_rows :
      (hour : ℕ) (team : Str) (rows : List (RequestRow F))
      → team_requests hour team (map team_group rows) ≡ count (row_of_team hour team) rows
  team_rows hour team [] = refl
  team_rows hour team (r ∷ rows) = omega (arith, team_rows hour team rows)

  counted_teams :
      (hour : ℕ) (team : Str) (rows : List (RequestRow F)) (groups : List (TeamUsage F))
      → team_requests hour team (map (count_tokens rows) groups) ≡ team_requests hour team groups
  unfolding count_tokens
  counted_teams hour team rows [] = refl
  counted_teams hour team rows (g ∷ groups) = omega (arith, counted_teams hour team rows groups)

  -- Two ranges that meet.
  ranges :
      (p : RequestRow F → Bool) (a b c : ℕ) (rows : List (RequestRow F))
      → a ≤ b
      → b ≤ c
      → count (λ r. in_range a b r && p r) rows + count (λ r. in_range b c r && p r) rows
        ≡ count (λ r. in_range a c r && p r) rows
  ranges p a b c [] h k = omega arith
  ranges p a b c (r ∷ rows) h k = ground (arith, ranges p a b c rows h k)

  -- What a range adds to a sum.
  pub counted-range :
      (start cursor to : ℕ) (rows : List (RequestRow F)) (p : RequestRow F → Bool) (old new : ℕ)
      → start ≤ cursor
      → cursor ≤ to
      → old ≡ count (λ r. in_range start cursor r && p r) rows
      → new ≡ old + count p (keep (in_range cursor to) rows)
      → new ≡ count (λ r. in_range start to r && p r) rows
  counted-range start cursor to rows p old new h k before after =
      omega
        (arith, total-keep p (in_range cursor to) (λ _. 1) rows, ranges p start cursor to rows h k)

module _ {F : Type 0} ⦃fl : Float F⦄ where
  IsAdditive-tokens :
      (hour : ℕ) (token_hash : Str)
      → IsAdditive {G = TokenUsage F} same_token_key merge_tokens
          (of_token hour token_hash)
          (λ u. u.requests)
  IsAdditive-tokens hour token_hash = record {
    alike = λ e g h. ground (arith, ==_iff e.hour g.hour, same_iff e.token_hash g.token_hash, h);
    kept = λ e g. refl;
    added = λ e g. refl;
  }

  IsAdditive-groups :
      (hour : ℕ) (token_hash : Str)
      → IsAdditive {G = TokenUsage F} same_token_group merge_tokens
          (of_token hour token_hash)
          (λ u. u.requests)
  IsAdditive-groups hour token_hash = record {
    alike = λ e g h. ground (arith, ==_iff e.hour g.hour, same_iff e.token_hash g.token_hash, h);
    kept = λ e g. refl;
    added = λ e g. refl;
  }

  IsAdditive-teams :
      (hour : ℕ) (team : Str)
      → IsAdditive {G = TeamUsage F} same_team_key merge_teams (of_team hour team) (λ u. u.requests)
  IsAdditive-teams hour team = record {
    alike = λ e g h. ground (arith, ==_iff e.hour g.hour, same_iff e.team g.team, h);
    kept = λ e g. refl;
    added = λ e g. refl;
  }

  pub token_requests-insert :
      (hour : ℕ) (token_hash : Str) (rows : List (RequestRow F))
      (table table' : List (TokenUsage F))
      → insert_token_usage rows table ≡ some table'
      → token_requests hour token_hash table'
        ≡ token_requests hour token_hash table + count (row_of_token hour token_hash) rows
  unfolding insert_token_usage
  token_requests-insert hour token_hash rows table table' h =
      let groups = group_all same_token_group merge_tokens (map token_group rows) in
      let merged =
        total-upsert_all same_token_key merge_tokens _ _ (IsAdditive-tokens hour token_hash) table
          groups table' h in
      let grouped =
        total-group_all same_token_group merge_tokens _ _ (IsAdditive-groups hour token_hash)
          (map token_group rows) in
      omega (arith, merged, grouped, token_rows hour token_hash rows)

  pub team_requests-insert :
      (hour : ℕ) (team : Str) (rows : List (RequestRow F)) (table table' : List (TeamUsage F))
      → insert_team_usage rows table ≡ some table'
      → team_requests hour team table'
        ≡ team_requests hour team table + count (row_of_team hour team) rows
  unfolding insert_team_usage
  team_requests-insert hour team rows table table' h =
      let groups = group_all same_team_key merge_teams (map team_group rows) in
      let merged =
        total-upsert_all same_team_key merge_teams _ _ (IsAdditive-teams hour team) table
          (map (count_tokens rows) groups) table' h in
      let grouped =
        total-group_all same_team_key merge_teams _ _ (IsAdditive-teams hour team)
          (map team_group rows) in
      omega (arith, merged, grouped, counted_teams hour team rows groups, team_rows hour team rows)
