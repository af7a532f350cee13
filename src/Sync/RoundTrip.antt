-- ===== src/Sync/RoundTrip.antt =====
-- src/sync/redis_sync.rs: a session's endpoint and a ban go through the server.
use rust_ai_router.Base.{
  ℕ, ◌<◌, ◌≡◌, refl, ap, ◌∙◌, u64_mod, true, some, Str, bytes, to_string, bound, digits-to_string,
  unsigned-to_string, lt→ltb, arith,
}
use rust_ai_router.Sync.{
  Redis, SyncStore, parse_usize, sticky_key, with_conn, set_sticky, get_sticky, ban_key, set_ban,
  is_banned,
}

-- A number of 64 bits is read from its text.
parse_usize-to_string : (n : ℕ) → n < u64_mod → parse_usize (to_string n) ≡ some n
unfolding parse_usize
parse_usize-to_string n h =
    let short : n < bound 20 = omega (arith, h) in
    rw (parse_usize, unsigned-to_string n short, digits-to_string n short, lt→ltb n u64_mod h) refl

module _ {R : Type 0} ⦃redis : Redis R⦄ where
  -- An endpoint that one instance binds to a session is the one that another instance with the same
  -- prefix finds, where the server gives back what it was given.
  pub get_sticky-set_sticky :
      (s : SyncStore R) (conn : R) (session_id : Str) (index ttl_secs : ℕ)
      → s.conn ≡ some conn
      → ((c : R) (key value : Str) (secs : ℕ)
          → (redis.get_value (redis.set_ex c key value secs) key).0 ≡ some (some value))
      → index < u64_mod
      → (get_sticky (set_sticky s session_id index ttl_secs) session_id).0 ≡ some index
  unfolding get_sticky set_sticky
  get_sticky-set_sticky s conn session_id index ttl_secs connected keeps small =
      let key = sticky_key s session_id in
      let stored : set_sticky s session_id index ttl_secs
          ≡ with_conn s (redis.set_ex conn key (to_string index) ttl_secs) =
        rw (set_sticky, connected) refl in
      ap (λ t. (get_sticky t session_id).0) stored
      ∙ rw (get_sticky, keeps conn key (to_string index) ttl_secs)
          (parse_usize-to_string index small)

  -- A ban that one instance sets is seen by another instance with the same prefix, where a key that
  -- was set exists.
  pub is_banned-set_ban :
      (s : SyncStore R) (conn : R) (endpoint_key : Str) (duration_secs : ℕ)
      → s.conn ≡ some conn
      → ((c : R) (key value : Str) (secs : ℕ)
          → (redis.exists_key (redis.set_ex c key value secs) key).0 ≡ some true)
      → (is_banned (set_ban s endpoint_key duration_secs) endpoint_key).0 ≡ true
  unfolding is_banned set_ban
  is_banned-set_ban s conn endpoint_key duration_secs connected keeps =
      let key = ban_key s endpoint_key in
      let stored : set_ban s endpoint_key duration_secs
          ≡ with_conn s (redis.set_ex conn key (bytes "1") duration_secs) =
        rw (set_ban, connected) refl in
      ap (λ t. (is_banned t endpoint_key).0) stored
      ∙ rw (is_banned, keeps conn key (bytes "1") duration_secs) refl
