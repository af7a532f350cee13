-- ===== src/Base/Dict.antt =====
-- A `DashMap<String, V>` or `HashMap<String, V>` as the list of its entries. The order of the
-- entries is not modelled: the program reads its maps by key, and counts entries.
use mathlib.Core.Path.{◌≡◌, refl}
use mathlib.Core.Bool.{Bool}
use mathlib.Core.List.{List, [], ◌∷◌}
use mathlib.Core.Option.{Option, none, some}
use native.Mathlib.Omega.{arith}
use rust_ai_router.Base.Tests.{if◌then◌else◌}
use rust_ai_router.Base.Text.{Str, same, same_iff}

abbrev pub Dict {ℓ} : Type ℓ → Type ℓ
Dict V = List (Str × V)

module _ {ℓ} {V : Type ℓ} where
  unfoldable pub get : Dict V → Str → Option V
  get [] k = none
  get ((j, v) ∷ d) k = if same j k then some v else get d k

  unfoldable pub put : Dict V → Str → V → Dict V
  put [] k v = (k, v) ∷ []
  put ((j, w) ∷ d) k v = if same j k then (j, v) ∷ d else (j, w) ∷ put d k v

  unfoldable pub remove : Dict V → Str → Dict V
  remove [] k = []
  remove ((j, v) ∷ d) k = let rest = remove d k in if same j k then rest else (j, v) ∷ rest

  -- `retain(|_, v| keep(v))`
  unfoldable pub retain : (V → Bool) → Dict V → Dict V
  retain p [] = []
  retain p ((j, v) ∷ d) = let rest = retain p d in if p v then (j, v) ∷ rest else rest

  pub get-put :
      (d : Dict V) (k j : Str) (v : V) → get (put d k v) j ≡ (if same k j then some v else get d j)
  unfolding get put
  get-put [] k j v = refl
  get-put ((i, w) ∷ d) k j v =
      ground (arith, same_iff k j, same_iff i k, same_iff i j, get-put d k j v)

  pub get-remove :
      (d : Dict V) (k j : Str) → get (remove d k) j ≡ (if same k j then none else get d j)
  unfolding get remove
  get-remove [] k j = ground arith
  get-remove ((i, w) ∷ d) k j =
      ground (arith, same_iff k j, same_iff i k, same_iff i j, get-remove d k j)

  -- Each key stands once, as in a hash map.
  abbrev pub Distinct : Dict V → Type ℓ
  Distinct [] = Unit
  Distinct ((j, v) ∷ d) = (get d j ≡ none) × Distinct d

  -- `get(k).filter(p)`
  abbrev pub only : (V → Bool) → Option V → Option V
  only p none = none
  only p (some v) = if p v then some v else none

  pub get-retain :
      (p : V → Bool) (d : Dict V) (k : Str) → Distinct d → get (retain p d) k ≡ only p (get d k)
  unfolding get retain
  get-retain p [] k h = refl
  get-retain p ((j, v) ∷ d) k h = ground (arith, same_iff j k, get-retain p d k h.1)

  pub put-Distinct : (d : Dict V) (k : Str) (v : V) → Distinct d → Distinct (put d k v)
  unfolding get put
  put-Distinct [] k v h = (refl, tt)
  put-Distinct ((j, w) ∷ d) k v h =
      ground (arith, same_iff j k, same_iff k j, get-put d k j v, put-Distinct d k v h.1)

  pub remove-Distinct : (d : Dict V) (k : Str) → Distinct d → Distinct (remove d k)
  unfolding remove
  remove-Distinct [] k h = tt
  remove-Distinct ((j, v) ∷ d) k h = ground (arith, get-remove d k j, remove-Distinct d k h.1)

  pub retain-Distinct : (p : V → Bool) (d : Dict V) → Distinct d → Distinct (retain p d)
  unfolding retain
  retain-Distinct p [] h = tt
  retain-Distinct p ((j, v) ∷ d) h = ground (arith, get-retain p d j h.1, retain-Distinct p d h.1)

pub ruleset dict_laws = (get-put, get-remove)
