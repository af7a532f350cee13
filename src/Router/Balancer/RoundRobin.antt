-- ===== src/Router/Balancer/RoundRobin.antt =====
-- The round-robin order of `select_endpoint`.
use rust_ai_router.Base.{
  ℕ, zero, suc, ◌+◌, ◌%◌, ◌≤◌, ◌<◌, u64_mod, ◌≡◌, refl, ap, ◌∙◌, false, some, Str, length,
  same_refl, get_or, arith, Float, List, [], ◌∷◌, is_empty,
}
use native.Mathlib.Nat.{add-zero, mod-eq_of_lt}
use rust_ai_router.Base.Cycle.{cycle_reaches}
use rust_ai_router.Base.Dict.{get, get-put}
use rust_ai_router.Config.{AppConfig, ModelConfig, find_model}
use rust_ai_router.Router.Balancer.{Counters, next, build_selected, pick_weighted, select_endpoint}

-- The count that the next call for a model uses.
abbrev pub count_of : Counters → Str → ℕ
count_of counters name = get_or (get counters name) 0

next-count :
    (c : Counters) (name : Str) (total : ℕ)
    → count_of (next c name total).1 name ≡ (count_of c name + 1) % u64_mod
unfolding next
next-count c name total = rw (get-put, same_refl)

next-index :
    (c : Counters) (name : Str) (total : ℕ) → (next c name total).0 ≡ count_of c name % total
unfolding next
next-index c name total = refl

is_empty_filled {ℓ} : {A : Type ℓ} (xs : List A) → 0 < length xs → is_empty xs ≡ false
is_empty_filled [] h = absurd (omega arith)
is_empty_filled (x ∷ xs) h = refl

module _ {F : Type 0} ⦃fl : Float F⦄ where
  -- The state after `k` calls of `select_endpoint` for one model.
  unfoldable pub after : ℕ → AppConfig F → Counters → Str → Counters
  after zero cfg c model_name = c
  after (suc k) cfg c model_name = after k cfg (select_endpoint cfg c model_name).1 model_name

  module _ (cfg : AppConfig F) (model_name : Str) (m : ModelConfig F)
      (known : find_model cfg model_name ≡ some m) (filled : 0 < length m.endpoints) where
    select_endpoint-next :
        (c : Counters)
        → select_endpoint cfg c model_name ≡ (
          build_selected m.endpoints (next c m.name (length m.endpoints)).0 (length m.endpoints),
          (next c m.name (length m.endpoints)).1,
        )
    unfolding select_endpoint pick_weighted
    select_endpoint-next c = rw (known, select_endpoint, is_empty_filled m.endpoints filled)

    counted :
        (c : Counters)
        → count_of c m.name + 1 < u64_mod
        → count_of (select_endpoint cfg c model_name).1 m.name ≡ count_of c m.name + 1
    counted c h = rw (select_endpoint-next c, next-count) (mod-eq_of_lt h)

    -- For a known model with an endpoint, the `k`-th call from now on picks the endpoint `k` places
    -- further round the list, as long as the 64-bit counter does not wrap.
    pub select_endpoint-rotates :
        (k : ℕ) (c : Counters)
        → count_of c m.name + k < u64_mod
        → (select_endpoint cfg (after k cfg c model_name) model_name).0
          ≡ build_selected m.endpoints
              ((count_of c m.name + k) % length m.endpoints)
              (length m.endpoints)
    unfolding after
    select_endpoint-rotates zero c h = rw (select_endpoint-next c, next-index, add-zero)
    select_endpoint-rotates (suc k) c h =
        let c' = (select_endpoint cfg c model_name).1 in
        let more = counted c (omega arith) in
        let shift : count_of c' m.name + k ≡ count_of c m.name + suc k = omega arith in
        select_endpoint-rotates k c' (omega arith)
        ∙ ap (λ j. build_selected m.endpoints (j % length m.endpoints) (length m.endpoints)) shift

    -- Within as many calls as a known model has endpoints, each of its endpoints is picked, whatever
    -- the weights, as long as the 64-bit counter does not wrap during them.
    pub select_endpoint-reaches :
        (c : Counters) (i : ℕ)
        → i < length m.endpoints
        → count_of c m.name + length m.endpoints ≤ u64_mod
        → (k : ℕ) × (k < length m.endpoints)
          × ((select_endpoint cfg (after k cfg c model_name) model_name).0
              ≡ build_selected m.endpoints i (length m.endpoints))
    select_endpoint-reaches c i hi room =
        let (k, lt, e) = cycle_reaches (count_of c m.name) i (length m.endpoints) hi in
        (
          k,
          lt,
          select_endpoint-rotates k c (omega arith)
              ∙ ap (λ j. build_selected m.endpoints j (length m.endpoints)) e,
        )
