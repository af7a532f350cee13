-- ===== src/Sync/Connect.antt =====
-- src/sync/redis_sync.rs: which server a store connects to. Opening a connection that answers PING is
-- the crate redis's, and a parameter; the text of an error is left out.
use rust_ai_router.Base.{
  not, ◌||◌, Option, none, some, List, Str, bytes, same, get_or, map_opt, is_empty, if◌then◌else◌,
}
use rust_ai_router.Config.{SyncConfig}
use rust_ai_router.Sync.{SyncStore}

pub data ServerType : Type 0 where
  master replica : ServerType

-- A connection to a server, or to what the sentinels name.
pub record Servers (R : Type 0) : Type 0 where
  pub standalone : Str → Option R
  pub sentinel : List Str → Str → ServerType → Option R

module _ {R : Type 0} (servers : Servers R) where
  unfoldable pub connect_standalone : Str → Str → Option (SyncStore R)
  connect_standalone url prefix =
      map_opt (λ conn. record { conn = some conn; prefix = prefix }) (servers.standalone url)

  unfoldable pub connect_sentinel : SyncConfig → Option (SyncStore R)
  unfolding same
  connect_sentinel cfg =
      let master_name = get_or cfg.sentinel_master_name (bytes "mymaster") in
      let server_type =
        if same cfg.sentinel_server_type (bytes "replica") then replica else master in
      if is_empty cfg.sentinel_nodes
      then none
      else map_opt (λ conn. record { conn = some conn; prefix = cfg.key_prefix })
          (servers.sentinel cfg.sentinel_nodes master_name server_type)

  -- `SyncStore::connect`
  unfoldable pub connect : SyncConfig → Option (SyncStore R)
  unfolding connect_standalone connect_sentinel
  connect cfg =
      if same cfg.mode (bytes "sentinel") || not (is_empty cfg.sentinel_nodes)
      then connect_sentinel cfg
      else connect_standalone (get_or cfg.redis_url (bytes "redis://localhost:6379")) cfg.key_prefix
