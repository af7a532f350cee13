-- ===== src/Stats/Stuck.antt =====
-- src/stats/pg.rs: a pair of rows that no aggregation gets past.
use rust_ai_router.Base.{
  ℕ, suc, ◌*◌, ◌≤◌, ◌<◌, ◌==◌, ◌≡◌, refl, sym, ◌∙◌, Bool, true, false, ◌&&◌, none, List, [], ◌∷◌,
  Str, same, same_iff, ==_iff, any, keep, map, leb, Bool-cases, inl, inr, arith, leb→le, Float,
}
use rust_ai_router.Stats.{
  RequestRow, TokenUsage, Database, hour_length, hour_of, token_group, same_token_key,
  same_token_group, merge_tokens, in_range, insert_token_usage, run_aggregation, group_all,
}
use rust_ai_router.Stats.Groups.{any-group_all, upsert_all-clash}
use rust_ai_router.Stats.History.{
  Event, inserts, aggregates, run, rows_at, Moved, run_aggregation-cases,
}

module _ {F : Type 0} where
  -- A row of an hour, a token hash and a team.
  abbrev pub row_in : ℕ → Str → Str → RequestRow F → Bool
  row_in hour token_hash team r =
      hour_of r.timestamp == hour && same r.token_key_hash token_hash && same r.team team

  abbrev group_in : ℕ → Str → Str → TokenUsage F → Bool
  group_in hour token_hash team u =
      u.hour == hour && same u.token_hash token_hash && same u.team team

  any-later :
      (p : RequestRow F → Bool) (r : RequestRow F) (rows : List (RequestRow F))
      → any p rows ≡ true
      → any p (r ∷ rows) ≡ true
  any-later p r rows h = ground (arith, h)

  -- A range over a whole hour reads its rows.
  any-range :
      (hour from to : ℕ) (token_hash team : Str) (rows : List (RequestRow F))
      → from ≤ hour * hour_length
      → suc hour * hour_length ≤ to
      → any (row_in hour token_hash team) rows ≡ true
      → any (group_in hour token_hash team) (map token_group (keep (in_range from to) rows)) ≡ true
  any-range hour from to token_hash team [] h k some_row = cc
  any-range hour from to token_hash team (r ∷ rows) h k some_row =
      elim (Bool-cases (row_in hour token_hash team r)) [
        | inl e ↦
            let at : hour_of r.timestamp ≡ hour = (==_iff _ hour).0 (ground (arith, e)) in
            let within : in_range from to r ≡ true = ground (arith, at) in rw (within, e) refl
        | inr e ↦
            let rest =
              any-range hour from to token_hash team rows h k (ground (arith, some_row, e)) in
            elim (Bool-cases (in_range from to r)) [
              | inl within ↦ rw (within, e) rest
              | inr outside ↦ rw outside rest
            ]
      ]

module _ {F : Type 0} ⦃fl : Float F⦄ where
  joined :
      (hour : ℕ) (token_hash team : Str) (e g : TokenUsage F)
      → same_token_group e g ≡ true
      → group_in hour token_hash team g ≡ true
      → group_in hour token_hash team (merge_tokens e g) ≡ true
  joined hour token_hash team e g h k =
      ground (arith, same_iff e.token_hash g.token_hash, same_iff e.team g.team, h, k)

  one_key :
      (hour : ℕ) (token_hash team other : Str) (e g : TokenUsage F)
      → group_in hour token_hash team e ≡ true
      → group_in hour token_hash other g ≡ true
      → (same_token_key e g ≡ true) × (same_token_key g e ≡ true)
  one_key hour token_hash team other e g h k =
      let at : e.token_hash ≡ token_hash =
        (same_iff e.token_hash token_hash).0 (ground (arith, h)) in
      let at' : g.token_hash ≡ token_hash =
        (same_iff g.token_hash token_hash).0 (ground (arith, k)) in
      let there : same e.token_hash g.token_hash ≡ true =
        (same_iff e.token_hash g.token_hash).1 (at ∙ sym at') in
      let back : same g.token_hash e.token_hash ≡ true =
        (same_iff g.token_hash e.token_hash).1 (at' ∙ sym at) in
      (ground (arith, h, k, there), ground (arith, h, k, back))

  insert_token_usage-clash :
      (hour : ℕ) (token_hash team other : Str) (rows : List (RequestRow F))
      (table : List (TokenUsage F))
      → same team other ≡ false
      → any (group_in hour token_hash team) (map token_group rows) ≡ true
      → any (group_in hour token_hash other) (map token_group rows) ≡ true
      → insert_token_usage rows table ≡ none
  unfolding insert_token_usage
  insert_token_usage-clash hour token_hash team other rows table apart one two =
      let groups = map token_group rows in
      upsert_all-clash same_token_key merge_tokens (group_in hour token_hash team)
        (group_in hour token_hash other)
        (λ e h.
          ground
            (arith, same_iff e.team team, same_iff e.team other, same_iff team other, apart, h))
        (one_key hour token_hash team other) table (group_all same_token_group merge_tokens groups)
        (any-group_all same_token_group merge_tokens (group_in hour token_hash team)
          (joined hour token_hash team) (λ e g h. h) groups one)
        (any-group_all same_token_group merge_tokens (group_in hour token_hash other)
          (joined hour token_hash other) (λ e g h. h) groups two)

  Moved-before :
      (hour now : ℕ) (token_hash team other : Str) (db after : Database F)
      → same team other ≡ false
      → any (row_in hour token_hash team) db.requests ≡ true
      → any (row_in hour token_hash other) db.requests ≡ true
      → db.last_ts ≤ hour * hour_length
      → Moved now db after
      → after.last_ts ≤ hour * hour_length
  Moved-before hour now token_hash team other db after apart one two begun m =
      elim (Bool-cases (leb (hour_of now) hour)) [
        | inl early ↦ omega (arith, m.cursor, leb→le (hour_of now) hour early)
        | inr late ↦
            let past : hour < hour_of now = ground (arith, late) in
            let to = hour_of now * hour_length in
            let whole : suc hour * hour_length ≤ to = omega (arith, past) in
            let refused =
              insert_token_usage-clash hour token_hash team other (rows_at now db) db.token_usage
                apart (any-range hour db.last_ts to token_hash team db.requests begun whole one)
                (any-range hour db.last_ts to token_hash other db.requests begun whole two) in
            absurd (ground (arith, refused, m.tokens))
      ]

  -- Let two rows of one hour have the same token hash and different teams. Then no aggregation gets
  -- past the beginning of that hour, whatever rows are inserted and however often it runs.
  pub run-stuck :
      (events : List (Event F)) (hour : ℕ) (token_hash team other : Str) (db : Database F)
      → same team other ≡ false
      → any (row_in hour token_hash team) db.requests ≡ true
      → any (row_in hour token_hash other) db.requests ≡ true
      → db.last_ts ≤ hour * hour_length
      → (run events db).last_ts ≤ hour * hour_length
  unfolding run
  run-stuck [] hour token_hash team other db apart one two begun = begun
  run-stuck (inserts r ∷ events) hour token_hash team other db apart one two begun =
      run-stuck events hour token_hash team other (record db { requests = r ∷ db.requests }) apart
        (any-later (row_in hour token_hash team) r db.requests one)
        (any-later (row_in hour token_hash other) r db.requests two) begun
  run-stuck (aggregates executes now ∷ events) hour token_hash team other db apart one two begun =
      elim (run_aggregation-cases executes now db) [
        | inl same_db ↦
            rw (run, same_db) (run-stuck events hour token_hash team other db apart one two begun)
        | inr m ↦
            run-stuck events hour token_hash team other (run_aggregation executes now db) apart
              (rw m.same_requests one) (rw m.same_requests two)
              (Moved-before hour now token_hash team other db (run_aggregation executes now db)
                apart one two begun m)
      ]
