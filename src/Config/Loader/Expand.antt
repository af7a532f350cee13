-- ===== src/Config/Loader/Expand.antt =====
-- What `expand_env_vars` leaves alone and what it puts in.
use rust_ai_router.Base.{◌≡◌, refl, false, Option, [], ◌∷◌, Str, any, ◌==◌, arith}
use rust_ai_router.Config.Loader.{ok, expand_from, expand_env_vars}

-- A text without `$` is returned as it stands, whatever the environment holds.
pub expand_env_vars-plain :
    (env : Str → Option Str) (input : Str)
    → any (λ c. c == b'$') input ≡ false
    → expand_env_vars env input ≡ ok input
unfolding expand_env_vars expand_from
expand_env_vars-plain env [] h = refl
expand_env_vars-plain env (c ∷ []) h = refl
expand_env_vars-plain env (c ∷ d ∷ rest) h =
    let tail = expand_env_vars-plain env (d ∷ rest) (ground arith) in ground arith
