-- ===== src/Config/Watcher.antt =====
-- src/config/watcher.rs: the configuration that is served while its file changes. The events of the
-- crate notify are a parameter, and so are `Path::ends_with` and what each loading reads.
pub mod Served
use rust_ai_router.Base.{
  Bool, true, false, ◌&&◌, ◌||◌, Option, none, some, List, [], ◌∷◌, Str, any, if◌then◌else◌,
}
use rust_ai_router.Config.{AppConfig}
use rust_ai_router.Config.Loader.{Loaded, bail, ok, no_watcher, load_config, ◌>>=◌}

-- The kinds of events that the watcher tells apart.
pub data EventKind : Type 0 where
  data_modified created other_kind : EventKind

-- An event, with what a loading of the file reads 100 ms later.
pub record Change : Type 0 where
  pub kind : EventKind
  pub paths : List Str
  pub env : Str → Option Str
  pub file : Option Str

-- The path of the file, its last part, and whether the watcher can be set up.
pub record Watched : Type 0 where
  pub path : Str
  pub file_name : Str
  pub ends_with : Str → Str → Bool
  pub starts : Bool

abbrev pub changes_file : EventKind → Bool
changes_file data_modified = true
changes_file created = true
changes_file other_kind = false

-- The callback of the watcher: whether it sends to the task that reloads.
unfoldable pub is_relevant : Watched → Change → Bool
is_relevant w change =
    changes_file change.kind
    && any (λ p. w.ends_with p w.path || w.ends_with p w.file_name) change.paths

module _ {F : Type 0} where
  -- One round of the task: a configuration that cannot be loaded leaves the previous one.
  unfoldable pub reload : (Str → Option (AppConfig F)) → Change → AppConfig F → AppConfig F
  unfolding load_config
  reload from_str change config = elim (load_config change.env from_str change.file) [
    | ok new_config ↦ new_config
    | bail problem ↦ config
  ]

  unfoldable pub reload_all :
      Watched → (Str → Option (AppConfig F)) → AppConfig F → List Change → AppConfig F
  unfolding reload is_relevant
  reload_all w from_str config [] = config
  reload_all w from_str config (change ∷ changes) =
      reload_all w from_str (if is_relevant w change then reload from_str change config else config)
        changes

  -- `watch_config`, and the configuration that is served after the changes.
  unfoldable pub watch_config :
      Watched
      → (Str → Option (AppConfig F))
      → (Str → Option Str)
      → Option Str
      → List Change
      → Loaded (AppConfig F)
  unfolding load_config reload_all
  watch_config w from_str env file changes = do
    initial ← load_config env from_str file
    if w.starts then ok (reload_all w from_str initial changes) else bail no_watcher
