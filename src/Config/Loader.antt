-- ===== src/Config/Loader.antt =====
-- src/config/loader.rs: `load_config`, with `expand_env_vars` and `validate_config`. What the file
-- holds, the YAML parser and the environment are outside, and parameters.
pub mod Valid
pub mod Expand
use rust_ai_router.Base.{
  ℕ, Bool, true, false, not, ◌&&◌, Option, none, some, List, [], ◌∷◌, ◌++◌, Str, bytes, same,
  contains, is_empty, map, trim, get_or, ◌==◌, if◌then◌else◌,
}
use rust_ai_router.Config.{AppConfig, TokenConfig, ModelConfig}

-- The errors of the loader, and of the watcher.
pub data LoadError : Type 0 where
  unknown_team : Str → Str → LoadError
  no_endpoints : Str → LoadError
  empty_variable : LoadError
  unset_variable : Str → LoadError
  unreadable_file : LoadError
  invalid_yaml : LoadError
  no_watcher : LoadError

-- The `Result` of anyhow; `bail!` gives an error.
pub data Loaded {ℓ} (V : Type ℓ) : Type ℓ where
  bail : LoadError → Loaded V
  ok : V → Loaded V

-- The `?` operator, after a step whose value is used or not.
module _ {ℓ} {W : Type ℓ} where
  infixl 5 ◌>>=◌ ◌>>◌
  abbrev pub ◌>>=◌ {κ} : {V : Type κ} → Loaded V → (V → Loaded W) → Loaded W
  bail problem >>= next = bail problem
  ok value >>= next = next value

  abbrev pub ◌>>◌ : Loaded (Unit {0}) → Loaded W → Loaded W
  bail problem >> next = bail problem
  ok value >> next = next

-- The first loop of `validate_config`. The message names the token by its masked key; here the
-- error holds the key.
unfoldable pub validate_tokens : List Str → List TokenConfig → Loaded (Unit {0})
validate_tokens team_names [] = ok tt
validate_tokens team_names (token ∷ tokens) =
    let rest = validate_tokens team_names tokens in
    if contains team_names token.team then rest else bail (unknown_team token.key token.team)

module _ {F : Type 0} where
  -- Its second loop.
  unfoldable pub validate_models : List (ModelConfig F) → Loaded (Unit {0})
  validate_models [] = ok tt
  validate_models (model ∷ models) =
      let rest = validate_models models in
      if is_empty model.endpoints then bail (no_endpoints model.name) else rest

  unfoldable pub validate_config : AppConfig F → Loaded (Unit {0})
  unfolding validate_tokens validate_models
  validate_config cfg = do
    validate_tokens (map (λ t. t.name) cfg.teams) cfg.tokens
    validate_models cfg.models

-- Where `expand_env_vars` stands: in plain text, or inside `${`, with the name read so far, the
-- default read so far (`default_value`), and whether `:-` has been seen (`in_default`).
pub data Mode : Type 0 where
  plain : Mode
  braces : Str → Option Str → Bool → Mode

-- What follows the `}`: the variable's value, or the default, or an error.
unfoldable pub substitute : (Str → Option Str) → Str → Option Str → Loaded Str
substitute env var_name default_value =
    let name = trim var_name in
    if is_empty name then bail empty_variable else elim (env name) [
      | some val ↦ ok val
      | none ↦ elim default_value [ some d ↦ ok (trim d) | none ↦ bail (unset_variable name) ]
    ]

-- The character `c` inside the braces, when it ends nothing.
abbrev pub push_char : Str → Option Str → Bool → ℕ → Mode
push_char var_name default_value true c =
    braces var_name (some (get_or default_value [] ++ c ∷ [])) true
push_char var_name default_value false c = braces (var_name ++ c ∷ []) default_value false

-- The two nested loops of `expand_env_vars`, which read the same iterator; the text is consumed
-- from the front, and the end of the text ends a variable too.
unfoldable pub expand_from : (Str → Option Str) → Mode → Str → Loaded Str
expand_from env plain [] = ok []
expand_from env (braces var_name default_value in_default) [] =
    substitute env var_name default_value
expand_from env plain (c ∷ []) = ok (c ∷ [])
expand_from env plain (c ∷ d ∷ rest) =
    let variable = expand_from env (braces [] none false) rest in
    let text = expand_from env plain (d ∷ rest) in
    if c == b'$' && d == b'{' then variable else (do s ← text; ok (c ∷ s))
expand_from env (braces var_name default_value in_default) (c ∷ []) =
    if c == b'}'
    then substitute env var_name default_value
    else expand_from env (push_char var_name default_value in_default c) []
expand_from env (braces var_name default_value in_default) (c ∷ d ∷ rest) =
    let text = expand_from env plain (d ∷ rest) in
    let value = expand_from env (braces var_name default_value true) rest in
    let more = expand_from env (push_char var_name default_value in_default c) (d ∷ rest) in
    if c == b'}'
    then (do s ← substitute env var_name default_value; t ← text; ok (s ++ t))
    else if c == b':' && d == b'-' && not in_default
    then value
    else more

unfoldable pub expand_env_vars : (Str → Option Str) → Str → Loaded Str
unfolding expand_from substitute
expand_env_vars env input = expand_from env plain input

module _ {F : Type 0} where
  abbrev pub required : Option (AppConfig F) → Loaded (AppConfig F)
  required none = bail invalid_yaml
  required (some config) = ok config

  -- `load_config`, with the environment as it is once `.env` is loaded, `from_str` of serde_yaml,
  -- and what the file holds, `none` when it cannot be read.
  unfoldable pub load_config :
      (Str → Option Str) → (Str → Option (AppConfig F)) → Option Str → Loaded (AppConfig F)
  unfolding expand_env_vars validate_config
  load_config env from_str none = bail unreadable_file
  load_config env from_str (some content) = do
    expanded ← expand_env_vars env content
    config ← required (from_str expanded)
    validate_config config
    ok config
