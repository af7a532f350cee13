-- ===== src/Base/Machine.antt =====
-- The part of `f64` that the program uses. Its arithmetic rounds, and is left to the machine: an
-- instance says what the operations return, and nothing is assumed of them but what a theorem
-- lists.
use Prim.Native.Nat.{ℕ}
use mathlib.Core.Bool.{Bool}
use rust_ai_router.Base.Int.{ℤ}

pub record Float (F : Type 0) : Type 0 where
  -- `n as f64`
  pub of_u64 : ℕ → F
  -- `n as f64` for an `i64`
  pub of_i64 : ℤ → F
  -- `Duration::as_secs_f64` of a number of nanoseconds
  pub of_nanos : ℕ → F
  pub add : F → F → F
  pub mul : F → F → F
  pub div : F → F → F
  -- `a > b`
  pub gt : F → F → Bool
