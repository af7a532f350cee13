-- ===== src/Router/Balancer.antt =====
-- src/router/balancer.rs. The configuration is the one that `config.load()` returns; the state of
-- the `ModelRouter` is the table of round-robin counters, and an operation returns it beside its
-- result. A counter is an `AtomicU64`, and `usize` has 64 bits.
pub mod Available
pub mod RoundRobin
pub mod Weighted
use rust_ai_router.Base.{
  ℕ, zero, suc, ◌+◌, ◌*◌, ◌%◌, u64_mod, ◌||◌, Option, none, some, List, [], ◌∷◌, map, Str, length,
  get_elem?, is_empty, contains, map_opt, map_or, get_or, ltb, ◌==◌, if◌then◌else◌, Float,
}
use rust_ai_router.Base.Dict.{Dict, get, put}
use rust_ai_router.Config.{AppConfig, EndpointConfig, find_model}
use rust_ai_router.Keys.{router_key}

pub record SelectedEndpoint (F : Type 0) : Type 0 where
  pub url : Str
  pub api_key : Str
  pub index : ℕ
  pub total_endpoints : ℕ
  pub cost_prompt : F
  pub cost_completion : F
  pub endpoint_limits_rpm : ℕ
  pub endpoint_limits_tpm : ℕ

abbrev pub Counters : Type 0
Counters = Dict ℕ

-- `RoundRobinCounters::next`; a `total` of 0 would panic, and no caller passes it.
unfoldable pub next : Counters → Str → ℕ → ℕ × Counters
next counters model total =
    let count = get_or (get counters model) 0 in
    (count % total, put counters model ((count + 1) % u64_mod))

-- The fold of `select_sticky`: `acc.wrapping_mul(31).wrapping_add(b)`.
unfoldable pub session_hash : ℕ → Str → ℕ
session_hash acc [] = acc
session_hash acc (b ∷ rest) = session_hash ((acc * 31 % u64_mod + b) % u64_mod) rest

module _ {F : Type 0} where
  -- The weights of `pick_weighted_with_offset`: 0 counts as 1.
  abbrev pub weights : List (EndpointConfig F) → List ℕ
  weights = map (λ ep. if ep.weight == 0 then 1 else ep.weight)

abbrev pub total_of : List ℕ → ℕ
total_of [] = 0
total_of (w ∷ ws) = w + total_of ws

-- The loop over `weights.iter().enumerate()`: the first index whose cumulative weight passes the
-- pick.
unfoldable pub first_above : ℕ → ℕ → ℕ → List ℕ → Option ℕ
first_above pick cumulative i [] = none
first_above pick cumulative i (w ∷ ws) =
    let rest = first_above pick (cumulative + w) (suc i) ws in
    if ltb pick (cumulative + w) then some i else rest

module _ {F : Type 0} ⦃fl : Float F⦄ where
  -- The literal `SelectedEndpoint { .. }` for an endpoint, written out at three places of the
  -- source: `select_available`, `build_selected` and the handler's `build_selected_endpoint`.
  unfoldable pub build_selected_endpoint : EndpointConfig F → ℕ → ℕ → SelectedEndpoint F
  build_selected_endpoint ep index total = record {
    url = ep.url;
    api_key = ep.key;
    index = index;
    total_endpoints = total;
    cost_prompt = map_or (fl.of_u64 0) (λ c. c.prompt) ep.cost;
    cost_completion = map_or (fl.of_u64 0) (λ c. c.completion) ep.cost;
    endpoint_limits_rpm = map_or 0 (λ l. l.rpm) ep.limits;
    endpoint_limits_tpm = map_or 0 (λ l. l.tpm) ep.limits;
  }

  -- `build_selected`
  unfoldable pub build_selected : List (EndpointConfig F) → ℕ → ℕ → Option (SelectedEndpoint F)
  build_selected endpoints index total =
      map_opt (λ ep. build_selected_endpoint ep index total) (get_elem? endpoints index)

  -- `pick_weighted`
  unfoldable pub pick_weighted :
      Counters → Str → List (EndpointConfig F) → Option (SelectedEndpoint F) × Counters
  pick_weighted counters model_name endpoints =
      let total = length endpoints in
      let (idx, counters') = next counters model_name total in
      (build_selected endpoints idx total, counters')

  -- `select_endpoint`
  unfoldable pub select_endpoint :
      AppConfig F → Counters → Str → Option (SelectedEndpoint F) × Counters
  select_endpoint cfg counters model_name = elim (find_model cfg model_name) [
    | none ↦ (none, counters)
    | some model ↦
        if is_empty model.endpoints
        then (none, counters)
        else pick_weighted counters model.name model.endpoints
  ]

  -- The loop of `select_available` over the offsets that are left: the first endpoint from
  -- `start + offset` on, around the list, that is neither banned nor tried. An index past the end
  -- would panic, and gives `none`; `start + offset` is reduced by `total`.
  unfoldable pub scan_available :
      List (EndpointConfig F) → ℕ → ℕ → List Str → List Str → ℕ → ℕ → Option (SelectedEndpoint F)
  scan_available endpoints total start banned_keys tried_keys offset zero = none
  scan_available endpoints total start banned_keys tried_keys offset (suc left) =
      let rest = scan_available endpoints total start banned_keys tried_keys (suc offset) left in
      let idx = (start + offset) % total in
      elim (get_elem? endpoints idx) [
        | none ↦ none
        | some ep ↦
            if contains banned_keys (router_key ep) || contains tried_keys (router_key ep)
            then rest
            else some (build_selected_endpoint ep idx total)
      ]

  -- `select_available`
  unfoldable pub select_available :
      AppConfig F → Counters → Str → List Str → List Str → Option (SelectedEndpoint F) × Counters
  select_available cfg counters model_name banned_keys tried_keys =
      elim (find_model cfg model_name) [
        | none ↦ (none, counters)
        | some model ↦
            let total = length model.endpoints in
            if total == 0
            then (none, counters)
            else (let (start, counters') = next counters model.name total in
                (
                  scan_available model.endpoints total start banned_keys tried_keys 0 total,
                  counters',
                ))
      ]

  -- `pick_weighted_with_offset`
  unfoldable pub pick_weighted_with_offset :
      List (EndpointConfig F) → ℕ → Option (SelectedEndpoint F)
  pick_weighted_with_offset endpoints offset =
      let total = length endpoints in
      let ws = weights endpoints in
      let total_weight = total_of ws in
      if total == 0
      then none
      else if total_weight == 0
      then none
      else build_selected endpoints (get_or (first_above (offset % total_weight) 0 0 ws) 0) total

  -- `select_sticky`
  unfoldable pub select_sticky : AppConfig F → Str → Str → Option (SelectedEndpoint F)
  select_sticky cfg model_name session_id = elim (find_model cfg model_name) [
    | none ↦ none
    | some model ↦ pick_weighted_with_offset model.endpoints (session_hash 0 session_id)
  ]
