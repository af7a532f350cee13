-- ===== src/Router/Balancer/Weighted.antt =====
-- The weighted choice of `select_sticky`: each endpoint owns a stretch of the offsets as long as
-- its weight.
use native.Mathlib.Nat.{mod-lt, zero-add}
use rust_ai_router.Base.{
  ℕ, zero, suc, ◌+◌, ◌%◌, ◌≤◌, ◌<◌, ◌≡◌, refl, some, List, [], ◌∷◌, length, get_elem?, take, ltb,
  ◌==◌, arith, Bool-cases, false, inl, inr, Float,
}
use rust_ai_router.Config.{EndpointConfig}
use rust_ai_router.Router.Balancer.{
  weights, total_of, first_above, build_selected, build_selected_endpoint,
  pick_weighted_with_offset,
}

-- Entry `i` of the weights owns the pick.
abbrev pub Owns : List ℕ → ℕ → ℕ → Type 0
Owns ws pick i =
    (w : ℕ) × (get_elem? ws i ≡ some w)
    × (total_of (take i ws) ≤ pick)
    × (pick < total_of (take i ws) + w)

-- The loop finds the owner, its index counted from `i`.
first_above-owner :
    (pick cumulative i : ℕ) (ws : List ℕ)
    → cumulative ≤ pick
    → pick < cumulative + total_of ws
    → (j : ℕ) × (first_above pick cumulative i ws ≡ some (i + j))
      × (w : ℕ) × (get_elem? ws j ≡ some w)
      × (cumulative + total_of (take j ws) ≤ pick)
      × (pick < cumulative + total_of (take j ws) + w)
unfolding first_above
first_above-owner pick cumulative i [] lo hi = absurd (omega arith)
first_above-owner pick cumulative i (w ∷ ws) lo hi = elim (Bool-cases (ltb pick (cumulative + w))) [
  | inl here ↦ (0, ground arith, w, refl, omega arith, ground arith)
  | inr later ↦
      let (j, e, v, at_j, lo', hi') =
        first_above-owner pick (cumulative + w) (suc i) ws (ground arith) (omega arith) in
      (suc j, ground arith, v, at_j, omega arith, omega arith)
]

owner_exists :
    (ws : List ℕ) (pick : ℕ)
    → pick < total_of ws
    → (i : ℕ) × (first_above pick 0 0 ws ≡ some i) × Owns ws pick i
owner_exists ws pick h =
    let (j, e, w, at_j, lo, hi) = first_above-owner pick 0 0 ws (omega arith) (omega arith) in
    (j, rw zero-add at e, (w, at_j, omega arith, omega arith))

nonzero : (n : ℕ) → 0 < n → (n == 0) ≡ false
nonzero n h = ground arith

module _ {F : Type 0} where
  endpoint_at :
      (eps : List (EndpointConfig F)) (i w : ℕ)
      → get_elem? (weights eps) i ≡ some w
      → (ep : EndpointConfig F) × (get_elem? eps i ≡ some ep)
  endpoint_at [] i w h = absurd (ground arith)
  endpoint_at (ep ∷ eps) zero w h = (ep, refl)
  endpoint_at (ep ∷ eps) (suc i) w h = endpoint_at eps i w h

  total_of_pos : (eps : List (EndpointConfig F)) → 0 < length eps → 0 < total_of (weights eps)
  total_of_pos [] h = absurd (omega arith)
  total_of_pos (ep ∷ eps) h = ground arith

module _ {F : Type 0} ⦃fl : Float F⦄ where
  -- A choice among at least one endpoint succeeds, and it picks the endpoint whose stretch holds
  -- the offset modulo the total weight: stretch `i` begins at the sum of the weights before it and
  -- is as long as weight `i` (a weight of 0 counting as 1).
  pub pick_weighted_with_offset-owner :
      (eps : List (EndpointConfig F)) (offset : ℕ)
      → 0 < length eps
      → (i : ℕ) × (ep : EndpointConfig F) × (get_elem? eps i ≡ some ep)
        × Owns (weights eps) (offset % total_of (weights eps)) i
        × (pick_weighted_with_offset eps offset ≡ some (build_selected_endpoint ep i (length eps)))
  unfolding pick_weighted_with_offset build_selected
  pick_weighted_with_offset-owner eps offset h =
      let pos = total_of_pos eps h in
      let (i, e, own) =
        owner_exists (weights eps) (offset % total_of (weights eps)) (mod-lt offset pos) in
      let (ep, at_i) = endpoint_at eps i own.0 own.1 in
      (i, ep, at_i, own, rw (nonzero _ h, nonzero _ pos, e, at_i))
