-- ===== src/Proxy/Handler/Loop.antt =====
-- The retry loop comes to an end when the router knows the endpoints by the keys that the handler
-- marks as tried, and never does when it knows them by other keys.
pub mod Ends
pub mod Never
use rust_ai_router.Base.{
  ℕ, zero, suc, ◌+◌, ◌≤◌, ◌<◌, ◌≡◌, refl, inl, inr, Bool, true, false, ◌||◌, Option, none, some,
  List, [], ◌∷◌, Str, same, same_iff, same_refl, contains, length, get_elem?, if◌then◌else◌, arith,
  Bool-cases,
}
use rust_ai_router.Config.{EndpointConfig}
use rust_ai_router.Keys.{router_key, endpoint_key}
use rust_ai_router.Proxy.Attempt.{insert}

pub contains-insert :
    (xs : List Str) (k j : Str) → contains (insert xs k) j ≡ (contains xs j || same k j)
contains-insert xs k j = elim (Bool-cases (contains xs k)) [
  | inl e ↦ grind (arith, same_iff k j)
  | inr e ↦ ground arith
]

module _ {F : Type 0} where
  -- The number of endpoints that the router would not skip as tried.
  unfoldable pub untried : List Str → List (EndpointConfig F) → ℕ
  untried tried [] = 0
  untried tried (ep ∷ eps) =
      let rest = untried tried eps in if contains tried (router_key ep) then rest else suc rest

  pub untried-le :
      (tried : List Str) (eps : List (EndpointConfig F)) → untried tried eps ≤ length eps
  unfolding untried
  untried-le tried [] = omega arith
  untried-le tried (ep ∷ eps) = ground (arith, untried-le tried eps)

  untried-insert-le :
      (tried : List Str) (k : Str) (eps : List (EndpointConfig F))
      → untried (insert tried k) eps ≤ untried tried eps
  unfolding untried
  untried-insert-le tried k [] = omega arith
  untried-insert-le tried k (ep ∷ eps) =
      ground (arith, contains-insert tried k (router_key ep), untried-insert-le tried k eps)

  -- Marking the key of an untried endpoint leaves one less.
  pub untried-insert :
      (tried : List Str) (eps : List (EndpointConfig F)) (i : ℕ) (ep : EndpointConfig F)
      → get_elem? eps i ≡ some ep
      → contains tried (router_key ep) ≡ false
      → untried (insert tried (router_key ep)) eps < untried tried eps
  unfolding untried
  untried-insert tried [] i ep e h = absurd (ground arith)
  untried-insert tried (x ∷ eps) zero ep e h = grind (
    arith,
    contains-insert tried (router_key ep) (router_key ep),
    same_refl (router_key ep),
    untried-insert-le tried (router_key ep) eps,
  )
  untried-insert tried (x ∷ eps) (suc i) ep e h = ground (
    arith,
    contains-insert tried (router_key ep) (router_key x),
    untried-insert tried eps i ep e h,
  )
