-- ===== src/Base/Cycle.antt =====
-- Walking round a cycle of `n` places.
use native.Mathlib.Nat.{mod-lt, mod-eq_of_lt, mod-add-mod, add-mod_right}
use Prim.Native.Nat.{ℕ, ◌+◌, ◌-◌, ◌%◌, ◌<◌}
use mathlib.Core.Path.{◌≡◌, sym, ◌∙◌, ap}
use mathlib.Core.Logic.{inl, inr}
use native.Mathlib.Omega.{arith}
use rust_ai_router.Base.Tests.{leb, Bool-cases}

add-mod_self : (i n : ℕ) → i < n → (i + n) % n ≡ i
add-mod_self i n h = add-mod_right i n ∙ mod-eq_of_lt h

reach : (s i n : ℕ) → s < n → i < n → (k : ℕ) × (k < n) × ((s + k) % n ≡ i)
reach s i n hs hi = elim (Bool-cases (leb s i)) [
  | inl le ↦
      let e : s + (i - s) ≡ i = ground arith in
      (i - s, omega arith, ap (λ t. t % n) e ∙ mod-eq_of_lt hi)
  | inr gt ↦
      let e : s + (i + n - s) ≡ i + n = ground arith in
      (i + n - s, ground arith, ap (λ t. t % n) e ∙ add-mod_self i n hi)
]

-- From any start, each place of the cycle is met within `n` steps.
pub cycle_reaches : (c i n : ℕ) → i < n → (k : ℕ) × (k < n) × ((c + k) % n ≡ i)
cycle_reaches c i n hi =
    let (k, lt, e) = reach (c % n) i n (mod-lt c (omega arith)) hi in
    (k, lt, sym (mod-add-mod c n k) ∙ e)
