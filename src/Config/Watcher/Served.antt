-- ===== src/Config/Watcher/Served.antt =====
-- src/config/watcher.rs: every configuration that is served is a valid one.
use rust_ai_router.Base.{
  Bool, true, false, if◌then◌else◌, ◌≡◌, refl, Option, none, some, List, [], ◌∷◌, Str, Float,
  Bool-cases, inl, inr,
}
use rust_ai_router.Config.{AppConfig, ModelConfig, find_model}
use rust_ai_router.Config.Loader.{
  Loaded, bail, ok, no_watcher, required, load_config, validate_config, expand_env_vars, ◌>>=◌,
  ◌>>◌,
}
use rust_ai_router.Config.Loader.Valid.{validate_config-serves}
use rust_ai_router.Config.Watcher.{Watched, Change, is_relevant, reload, reload_all, watch_config}
use rust_ai_router.Router.Balancer.{Counters, SelectedEndpoint, select_endpoint}

-- What a step that succeeds gives satisfies a predicate.
abbrev Yields : {V : Type 0} → (V → Type 0) → Loaded V → Type 0
Yields P (bail problem) = Unit
Yields P (ok value) = P value

at-ok : {V : Type 0} (P : V → Type 0) (l : Loaded V) (v : V) → Yields P l → l ≡ ok v → P v
at-ok P l v h e = rw e at h

bind-Yields :
    {V W : Type 0} (P : W → Type 0) (l : Loaded V) (next : V → Loaded W)
    → ((v : V) → Yields P (next v))
    → Yields P (l >>= next)
bind-Yields P (bail problem) next h = tt
bind-Yields P (ok value) next h = h value

guarded-Yields :
    {V : Type 0} (P : V → Type 0) (starts : Bool) (v : V)
    → P v
    → Yields P (if starts then ok v else bail no_watcher)
guarded-Yields P true v h = h
guarded-Yields P false v h = tt

module _ {F : Type 0} where
  abbrev IsValid : AppConfig F → Type 0
  IsValid config = validate_config config ≡ ok tt

  checked-Yields :
      (config : AppConfig F) (l : Loaded (Unit {0}))
      → validate_config config ≡ l
      → Yields IsValid (l >> ok config)
  checked-Yields config (bail problem) e = tt
  checked-Yields config (ok tt) e = e

  load_config-Yields :
      (env : Str → Option Str) (from_str : Str → Option (AppConfig F)) (file : Option Str)
      → Yields IsValid (load_config env from_str file)
  unfolding load_config
  load_config-Yields env from_str none = tt
  load_config-Yields env from_str (some content) =
      bind-Yields IsValid (expand_env_vars env content) _ (λ expanded.
        bind-Yields IsValid (required (from_str expanded)) _
          (λ config. checked-Yields config (validate_config config) refl))

  kept-IsValid :
      (l : Loaded (AppConfig F)) (config : AppConfig F)
      → Yields IsValid l
      → IsValid config
      → IsValid (elim l [ ok new_config ↦ new_config | bail problem ↦ config ])
  kept-IsValid (bail problem) config h valid = valid
  kept-IsValid (ok new_config) config h valid = h

  reload_all-IsValid :
      (w : Watched) (from_str : Str → Option (AppConfig F)) (config : AppConfig F)
      (changes : List Change)
      → IsValid config
      → IsValid (reload_all w from_str config changes)
  unfolding reload_all reload
  reload_all-IsValid w from_str config [] valid = valid
  reload_all-IsValid w from_str config (change ∷ changes) valid =
      elim (Bool-cases (is_relevant w change)) [
        | inl e ↦
            rw (reload_all, e)
              (reload_all-IsValid w from_str (reload from_str change config) changes (
                kept-IsValid (load_config change.env from_str change.file) config
                  (load_config-Yields change.env from_str change.file) valid))
        | inr e ↦ rw (reload_all, e) (reload_all-IsValid w from_str config changes valid)
      ]

  started-Yields :
      (w : Watched) (from_str : Str → Option (AppConfig F)) (changes : List Change)
      (l : Loaded (AppConfig F))
      → Yields IsValid l
      → Yields IsValid (
          l >>= (λ initial.
            if w.starts then ok (reload_all w from_str initial changes) else bail no_watcher))
  started-Yields w from_str changes (bail problem) h = tt
  started-Yields w from_str changes (ok initial) h =
      guarded-Yields IsValid w.starts (reload_all w from_str initial changes)
        (reload_all-IsValid w from_str initial changes h)

  watch_config-IsValid :
      (w : Watched) (from_str : Str → Option (AppConfig F)) (env : Str → Option Str)
      (file : Option Str) (changes : List Change) (config : AppConfig F)
      → watch_config w from_str env file changes ≡ ok config
      → validate_config config ≡ ok tt
  unfolding watch_config
  watch_config-IsValid w from_str env file changes config e =
      at-ok IsValid _ config
        (started-Yields w from_str changes (load_config env from_str file)
          (load_config-Yields env from_str file))
        e

module _ {F : Type 0} ⦃fl : Float F⦄ where
  -- However the file and the environment change while the program runs, and whatever of it cannot be
  -- loaded: once the program has started, `select_endpoint`, by which `proxy_generic` selects, gives
  -- an endpoint for each model of the configuration that is served.
  pub watch_config-serves :
      (w : Watched) (from_str : Str → Option (AppConfig F)) (env : Str → Option Str)
      (file : Option Str) (changes : List Change) (config : AppConfig F) (counters : Counters)
      (name : Str) (m : ModelConfig F)
      → watch_config w from_str env file changes ≡ ok config
      → find_model config name ≡ some m
      → (s : SelectedEndpoint F) × ((select_endpoint config counters name).0 ≡ some s)
  watch_config-serves w from_str env file changes config counters name m e known =
      validate_config-serves config counters name m
        (watch_config-IsValid w from_str env file changes config e) known
