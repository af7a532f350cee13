-- ===== src/Sync.antt =====
-- src/sync: the state shared through Redis, with the feature `redis-sync`; an instance that is not
-- connected behaves as the stub of src/sync/mod.rs. The commands of the server are a parameter. A
-- command answers `none` when it fails; the server's clock is part of its state.
pub mod Window
pub mod RoundTrip
pub mod Connect
use rust_ai_router.Base.{
  ℕ, zero, suc, ◌+◌, ◌/◌, ◌%◌, u64_mod, Bool, true, false, Option, none, some, [], ◌∷◌, ◌++◌, Str,
  bytes, get_or, ltb, leb, ◌==◌, if◌then◌else◌, strip_prefix, digits, to_string, Float,
}
use rust_ai_router.RateLimit.Store.{RateLimitResult, RateLimitScope, token}

pub record Redis (R : Type 0) : Type 0 where
  -- `INCR key` by 1, with the new count
  pub incr : R → Str → Option ℕ × R
  -- `EXPIRE key seconds`
  pub expire : R → Str → ℕ → R
  -- `SETEX key seconds value`
  pub set_ex : R → Str → Str → ℕ → R
  -- `EXISTS key`
  pub exists_key : R → Str → Option Bool × R
  -- `GET key`
  pub get_value : R → Str → Option (Option Str) × R

pub record SyncStore (R : Type 0) : Type 0 where
  pub conn : Option R
  pub prefix : Str

-- `s.parse::<usize>().ok()`
unfoldable pub parse_usize : Str → Option ℕ
unfolding digits strip_prefix
parse_usize s = elim (digits (elim (strip_prefix (bytes "+") s) [ none ↦ s | some r ↦ r ])) [
  | none ↦ none
  | some n ↦ if ltb n u64_mod then some n else none
]

-- `SyncStore::new`
unfoldable pub new : {R : Type 0} → SyncStore R
new = record { conn = none; prefix = [] }

module _ {R : Type 0} where
  abbrev pub rate_key : SyncStore R → Str → Str → Str
  rate_key s scope key = s.prefix ++ bytes ":rl:" ++ scope ++ bytes ":" ++ key

  abbrev pub ban_key : SyncStore R → Str → Str
  ban_key s endpoint_key = s.prefix ++ bytes ":banned:" ++ endpoint_key

  abbrev pub sticky_key : SyncStore R → Str → Str
  sticky_key s session_id = s.prefix ++ bytes ":sticky:" ++ session_id

  abbrev pub with_conn : SyncStore R → R → SyncStore R
  with_conn s conn = record s { conn = some conn }

module _ {F : Type 0} ⦃fl : Float F⦄ where
  -- The answer of every path that does not count.
  abbrev pub pass : RateLimitResult F
  pass = record { allowed = true; limit = 0; reset_after_secs = fl.of_u64 0; scope = token }

module _ {R : Type 0} ⦃redis : Redis R⦄ where
  module _ {F : Type 0} ⦃fl : Float F⦄ where
    -- `check_rate_limit`
    unfoldable pub check_rate_limit : SyncStore R → Str → Str → ℕ → RateLimitResult F × SyncStore R
    check_rate_limit s scope key limit = elim s.conn [
      | none ↦ (pass, s)
      | some conn ↦
          if limit == 0
          then (pass, s)
          else (let (answer, conn') = redis.incr conn (rate_key s scope key) in
              elim answer [
                | none ↦ (pass, with_conn s conn')
                | some count ↦
                    (let conn'' =
                        if count == 1
                        then redis.expire conn' (rate_key s scope key) 60
                        else conn' in
                      let allowed = leb count limit in
                      (
                        record {
                          allowed = allowed;
                          limit = limit;
                          reset_after_secs = fl.of_u64 (if allowed then 0 else 60);
                          scope = token;
                        },
                        with_conn s conn'',
                      ))
              ])
    ]

  -- `set_ban`
  unfoldable pub set_ban : SyncStore R → Str → ℕ → SyncStore R
  set_ban s endpoint_key duration_secs = elim s.conn [
    | none ↦ s
    | some conn ↦ with_conn s (redis.set_ex conn (ban_key s endpoint_key) (bytes "1") duration_secs)
  ]

  -- `is_banned`
  unfoldable pub is_banned : SyncStore R → Str → Bool × SyncStore R
  is_banned s endpoint_key = elim s.conn [
    | none ↦ (false, s)
    | some conn ↦
        (let (answer, conn') = redis.exists_key conn (ban_key s endpoint_key) in
          (get_or answer false, with_conn s conn'))
  ]

  -- `set_sticky`
  unfoldable pub set_sticky : SyncStore R → Str → ℕ → ℕ → SyncStore R
  unfolding to_string
  set_sticky s session_id endpoint_index ttl_secs = elim s.conn [
    | none ↦ s
    | some conn ↦
        with_conn s
          (redis.set_ex conn (sticky_key s session_id) (to_string endpoint_index) ttl_secs)
  ]

  -- `get_sticky`
  unfoldable pub get_sticky : SyncStore R → Str → Option ℕ × SyncStore R
  unfolding parse_usize
  get_sticky s session_id = elim s.conn [
    | none ↦ (none, s)
    | some conn ↦
        (let (answer, conn') = redis.get_value conn (sticky_key s session_id) in
          elim (get_or answer none) [
            | none ↦ (none, with_conn s conn')
            | some val ↦
                (parse_usize val, with_conn s (redis.expire conn' (sticky_key s session_id) 300))
          ])
  ]
