-- ===== src/Base/Int.antt =====
-- Signed integers over the native numbers, and the casts between `u64` and `i64`.
use Prim.Native.Nat.{ℕ, suc, ◌+◌, ◌-◌, ◌%◌, ◌^◌, ◌≤◌, ◌<◌}
use mathlib.Core.Path.{◌≡◌}
use mathlib.Core.Bool.{Bool}
use native.Mathlib.Omega.{arith}
use rust_ai_router.Base.Tests.{ltb, leb, if◌then◌else◌}

-- `negsuc n` is -(n + 1).
pub data ℤ : Type 0 where
  pos : ℕ → ℤ
  negsuc : ℕ → ℤ

abbrev pub pos_part : ℤ → ℕ
pos_part (pos n) = n
pos_part (negsuc n) = 0

abbrev pub neg_part : ℤ → ℕ
neg_part (pos n) = 0
neg_part (negsuc n) = suc n

-- a - b, as an integer.
abbrev pub sub_ℕ : ℕ → ℕ → ℤ
sub_ℕ a b = if leb b a then pos (a - b) else negsuc (b - a - 1)

infixl 65 ◌+ℤ◌ ◌-ℤ◌
infix 50 ◌≤ℤ◌
unfoldable pub ◌+ℤ◌ : ℤ → ℤ → ℤ
a +ℤ b = sub_ℕ (pos_part a + pos_part b) (neg_part a + neg_part b)

unfoldable pub ◌-ℤ◌ : ℤ → ℤ → ℤ
a -ℤ b = sub_ℕ (pos_part a + neg_part b) (neg_part a + pos_part b)

abbrev pub ◌≤ℤ◌ : ℤ → ℤ → Type 0
a ≤ℤ b = pos_part a + neg_part b ≤ pos_part b + neg_part a

abbrev pub ltb_ℤ : ℤ → ℤ → Bool
ltb_ℤ a b = ltb (pos_part a + neg_part b) (pos_part b + neg_part a)

-- One lemma for each operation lets `omega` work with the operations shut, at any depth.
pub +ℤ_parts :
    (a b : ℤ)
    → pos_part (a +ℤ b) + neg_part a + neg_part b ≡ neg_part (a +ℤ b) + pos_part a + pos_part b
unfolding ◌+ℤ◌
+ℤ_parts a b = ground arith

pub -ℤ_parts :
    (a b : ℤ)
    → pos_part (a -ℤ b) + neg_part a + pos_part b ≡ neg_part (a -ℤ b) + pos_part a + neg_part b
unfolding ◌-ℤ◌
-ℤ_parts a b = ground arith

pub eq_of_parts : (a b : ℤ) → pos_part a + neg_part b ≡ pos_part b + neg_part a → a ≡ b
eq_of_parts a b h = ground arith

pub ruleset int_laws = (arith, +ℤ_parts, -ℤ_parts, eq_of_parts)

-- Two's complement: the `i64` that has the bit pattern of an integer modulo 2^64.
unfoldable pub wrap_i64 : ℤ → ℤ
wrap_i64 (pos n) = let m = n % 2 ^ 64 in if ltb m (2 ^ 63) then pos m else negsuc (2 ^ 64 - 1 - m)
wrap_i64 (negsuc n) =
    let m = n % 2 ^ 64 in if ltb m (2 ^ 63) then negsuc m else pos (2 ^ 64 - 1 - m)

abbrev pub FitsI64 : ℤ → Type 0
FitsI64 z = (pos_part z < 2 ^ 63) × (neg_part z ≤ 2 ^ 63)

pub wrap_i64-fits : (z : ℤ) → FitsI64 z → wrap_i64 z ≡ z
unfolding wrap_i64
wrap_i64-fits (pos n) h = ground arith
wrap_i64-fits (negsuc n) h = ground arith

pub FitsI64-wrap_i64 : (z : ℤ) → FitsI64 (wrap_i64 z)
unfolding wrap_i64
FitsI64-wrap_i64 (pos n) = ground arith
FitsI64-wrap_i64 (negsuc n) = ground arith

-- `min` on `i64`
abbrev pub min_ℤ : ℤ → ℤ → ℤ
min_ℤ a b = if ltb_ℤ b a then b else a

-- The nearest `i64`, as the saturating operations return.
unfoldable pub saturate_i64 : ℤ → ℤ
saturate_i64 (pos n) = if ltb n (2 ^ 63) then pos n else pos (2 ^ 63 - 1)
saturate_i64 (negsuc n) = if ltb n (2 ^ 63) then negsuc n else negsuc (2 ^ 63 - 1)

-- The parts of a sum and of a difference do not exceed those that go into them.
pub +ℤ_bounds :
    (a b : ℤ)
    → (pos_part (a +ℤ b) ≤ pos_part a + pos_part b) × (neg_part (a +ℤ b) ≤ neg_part a + neg_part b)
unfolding ◌+ℤ◌
+ℤ_bounds a b = ground arith

pub -ℤ_bounds :
    (a b : ℤ)
    → (pos_part (a -ℤ b) ≤ pos_part a + neg_part b) × (neg_part (a -ℤ b) ≤ neg_part a + pos_part b)
unfolding ◌-ℤ◌
-ℤ_bounds a b = ground arith
