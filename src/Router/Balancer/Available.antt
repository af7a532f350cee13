-- ===== src/Router/Balancer/Available.antt =====
-- `select_available`: which endpoint it returns, and when it returns none.
use native.Mathlib.Nat.{zero-add}
use rust_ai_router.Base.Cycle.{cycle_reaches}
use rust_ai_router.Base.{
  ℕ, zero, suc, ◌+◌, ◌%◌, ◌<◌, ◌≡◌, inl, inr, Bool, true, false, ◌||◌, none, some, List, Str,
  length, get_elem?, get_elem?-some-lt, get_elem?_lt, contains, arith, Bool-cases, Option-cases,
  Float,
}
use rust_ai_router.Config.{AppConfig, ModelConfig, EndpointConfig, find_model}
use rust_ai_router.Keys.{router_key}
use rust_ai_router.Router.Balancer.{
  SelectedEndpoint, Counters, next, build_selected_endpoint, scan_available, select_available,
}

module _ {F : Type 0} where
  -- The test by which the router skips an endpoint.
  abbrev pub excluded : List Str → List Str → EndpointConfig F → Bool
  excluded banned_keys tried_keys ep =
      contains banned_keys (router_key ep) || contains tried_keys (router_key ep)

module _ {F : Type 0} ⦃fl : Float F⦄ where
  -- `s` is what the router returns for the endpoint at its index, which it may use.
  pub record Picks (eps : List (EndpointConfig F)) (banned tried : List Str)
      (s : SelectedEndpoint F) : Type 0 where
    pub ep : EndpointConfig F
    pub found : get_elem? eps s.index ≡ some ep
    pub built : s ≡ build_selected_endpoint ep s.index (length eps)
    pub usable : excluded banned tried ep ≡ false

  module _ (eps : List (EndpointConfig F)) (start : ℕ) (banned tried : List Str) where
    scan_available_sound :
        (offset left : ℕ) (s : SelectedEndpoint F)
        → scan_available eps (length eps) start banned tried offset left ≡ some s
        → Picks eps banned tried s
    unfolding scan_available build_selected_endpoint
    scan_available_sound offset zero s h = ground arith
    scan_available_sound offset (suc left) s h =
        elim (Option-cases (get_elem? eps ((start + offset) % length eps))) [
          | inl e ↦ absurd (ground arith)
          | inr (ep, e) ↦ elim (Bool-cases (excluded banned tried ep)) [
            | inl skip ↦ scan_available_sound (suc offset) left s (ground arith)
            | inr use_it ↦ record {
              ep = ep;
              found = ground arith;
              built = ground arith;
              usable = use_it;
            }
          ]
        ]

    scan_available-none :
        (offset left : ℕ)
        → scan_available eps (length eps) start banned tried offset left ≡ none
        → (k : ℕ) → k < left
        → (ep : EndpointConfig F) → get_elem? eps ((start + (offset + k)) % length eps) ≡ some ep
        → excluded banned tried ep ≡ true
    unfolding scan_available
    scan_available-none offset zero h k lt ep e = absurd (omega arith)
    scan_available-none offset (suc left) h zero lt ep e = ground arith
    scan_available-none offset (suc left) h (suc k) lt ep e =
        elim (Option-cases (get_elem? eps ((start + offset) % length eps))) [
          | inl out ↦ absurd (in_range out)
          | inr (first, here) ↦
              scan_available-none (suc offset) left (ground arith) k (omega arith) ep
                (rw (← shift) e)
        ]
      where
        shift : start + (offset + suc k) ≡ start + (suc offset + k)
        shift = omega arith

        in_range : get_elem? eps ((start + offset) % length eps) ≡ none → ⊥
        in_range out =
            let bound = get_elem?-some-lt eps _ ep e in
            let (x, there) = get_elem?_lt eps ((start + offset) % length eps) (omega arith) in
            ground arith

  -- A selected endpoint stands in the model's list at the index that is returned with it, is
  -- described by its own url, key, cost and limits, and its router key is neither banned nor tried.
  pub select_available_sound :
      (cfg : AppConfig F) (counters : Counters) (model_name : Str) (banned tried : List Str)
      (s : SelectedEndpoint F)
      → (select_available cfg counters model_name banned tried).0 ≡ some s
      → (m : ModelConfig F) × (find_model cfg model_name ≡ some m)
        × Picks m.endpoints banned tried s
  unfolding select_available
  select_available_sound cfg counters model_name banned tried s h =
      elim (Option-cases (find_model cfg model_name)) [
        | inl e ↦ absurd (ground arith)
        | inr (m, e) ↦ (
          m,
          e,
          scan_available_sound m.endpoints (next counters m.name (length m.endpoints)).0 banned
              tried 0 (length m.endpoints) s (ground arith),
        )
      ]

  -- When a known model gets no endpoint, every one of its endpoints is banned or tried.
  pub select_available-none :
      (cfg : AppConfig F) (counters : Counters) (model_name : Str) (banned tried : List Str)
      (m : ModelConfig F)
      → find_model cfg model_name ≡ some m
      → (select_available cfg counters model_name banned tried).0 ≡ none
      → (i : ℕ) (ep : EndpointConfig F) → get_elem? m.endpoints i ≡ some ep
      → excluded banned tried ep ≡ true
  unfolding select_available
  select_available-none cfg counters model_name banned tried m e h i ep at_i =
      let start = (next counters m.name (length m.endpoints)).0 in
      let (k, lt, round) =
        cycle_reaches start i (length m.endpoints) (get_elem?-some-lt _ _ _ at_i) in
      let here : get_elem? m.endpoints ((start + (0 + k)) % length m.endpoints) ≡ some ep =
        rw (zero-add, round) at_i in
      scan_available-none m.endpoints start banned tried 0 (length m.endpoints) (ground arith) k lt
        ep here
