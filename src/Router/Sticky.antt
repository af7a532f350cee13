-- ===== src/Router/Sticky.antt =====
-- src/router/sticky.rs. Each operation runs in one piece, at the time `now`.
pub mod Laws
pub mod Refine
use rust_ai_router.Base.{ℕ, ◌-◌, as_secs, Bool, Option, none, some, [], Str, ltb, if◌then◌else◌}
use rust_ai_router.Base.Dict
use rust_ai_router.Base.Dict.{Dict}

pub record StickyEntry : Type 0 where
  pub endpoint_index : ℕ
  pub last_access : ℕ

pub record SessionStickyStore : Type 0 where
  pub sessions : Dict StickyEntry
  pub ttl_secs : ℕ

unfoldable pub new : ℕ → SessionStickyStore
new ttl_secs = record { sessions = []; ttl_secs = ttl_secs }

-- `last_access.elapsed().as_secs() < ttl_secs`
abbrev pub alive : ℕ → ℕ → StickyEntry → Bool
alive ttl_secs now entry = ltb (as_secs (now - entry.last_access)) ttl_secs

unfoldable pub get : SessionStickyStore → Str → ℕ → Option ℕ × SessionStickyStore
get store session_id now = elim (Dict.get store.sessions session_id) [
  | none ↦ (none, store)
  | some entry ↦
      if alive store.ttl_secs now entry
      then (some entry.endpoint_index, store)
      else (none, record store { sessions = Dict.remove store.sessions session_id })
]

unfoldable pub set : SessionStickyStore → Str → ℕ → ℕ → SessionStickyStore
set store session_id endpoint_index now = record store {
  sessions =
      Dict.put store.sessions session_id
        (record { endpoint_index = endpoint_index; last_access = now });
}

unfoldable pub touch : SessionStickyStore → Str → ℕ → SessionStickyStore
touch store session_id now = elim (Dict.get store.sessions session_id) [
  | none ↦ store
  | some entry ↦ record store {
    sessions = Dict.put store.sessions session_id (record entry { last_access = now });
  }
]

unfoldable pub cleanup : SessionStickyStore → ℕ → SessionStickyStore
cleanup store now = record store {
  sessions = Dict.retain (alive store.ttl_secs now) store.sessions;
}
