-- ===== src/RateLimit/Tpm/Recovery.antt =====
-- After a refusal: how long to wait; and what a deduction near 2^64 tokens does.
use native.Mathlib.Nat.{mod-eq_of_lt}
use rust_ai_router.Base.{
  ℕ, ◌+◌, ◌-◌, ◌*◌, ◌%◌, ◌^◌, ◌≤◌, ◌<◌, u64_mod, as_millis, ◌≡◌, ◌∙◌, false, none, arith, Float,
}
use rust_ai_router.Base.Int.{
  ℤ, pos, negsuc, pos_part, neg_part, ◌+ℤ◌, ◌-ℤ◌, ltb_ℤ, wrap_i64, wrap_i64-fits, +ℤ_parts,
  +ℤ_bounds,
}
use rust_ai_router.RateLimit.Tpm.{
  TpmState, TpmLimiter, as_i64, earned, refill, track, spend, check_n, consume_n,
}
use rust_ai_router.RateLimit.Tpm.Bucket.{InRange, refill_plain, refill-eq-plain, refill-Refilled}

earned_enough :
    (s : TpmState) (capacity now deficit : ℕ)
    → now < u64_mod
    → 60_000 * deficit ≤ as_millis (now - s.last_update) * capacity
    → deficit ≤ earned s capacity now
unfolding earned
earned_enough s capacity now deficit small h =
    let whole : as_millis (now - s.last_update) % u64_mod ≡ as_millis (now - s.last_update) =
      mod-eq_of_lt (omega arith) in
    rw whole (omega arith)

enough :
    (s : TpmState) (capacity now e n : ℕ)
    → n ≤ capacity
    → n + neg_part s.tokens ≤ pos_part s.tokens + e
    → ltb_ℤ (refill_plain s capacity now e).tokens (pos n) ≡ false
unfolding refill_plain
enough s capacity now e n fits h = ground (arith, +ℤ_parts s.tokens (pos e))

module _ {F : Type 0} ⦃fl : Float F⦄ where
  -- A refused caller is served in the end: a check for at most the capacity succeeds once the
  -- milliseconds since the last update, at the rate of one capacity per 60000, are worth what the
  -- balance is short of. (No `i64` and no clock wraps.)
  pub check_n-recovers :
      (l : TpmLimiter) (n now deficit : ℕ)
      → InRange l.capacity now l.state
      → now < u64_mod
      → n ≤ l.capacity
      → n + neg_part l.state.tokens ≤ pos_part l.state.tokens + deficit
      → 60_000 * deficit ≤ as_millis (now - l.state.last_update) * l.capacity
      → (check_n {F = F} l n now).0 ≡ none
  unfolding check_n
  check_n-recovers l n now deficit h small fits short wait =
      let worth = earned_enough l.state l.capacity now deficit small wait in
      let passes =
        enough l.state l.capacity now (earned l.state l.capacity now) n fits (omega arith) in
      rw (refill-eq-plain l.state l.capacity now h, wrap_i64-fits (pos n) (omega arith), passes)

as_i64_huge : (n : ℕ) → 2 ^ 63 ≤ n → n < u64_mod → as_i64 n ≡ negsuc (u64_mod - 1 - n)
unfolding wrap_i64
as_i64_huge n lo hi = ground arith

minus_negative : (t : ℤ) (k : ℕ) → t -ℤ negsuc k ≡ t +ℤ pos (k + 1)
unfolding ◌-ℤ◌ ◌+ℤ◌
minus_negative t k = ground arith

track-tokens : (s : TpmState) (n now : ℕ) → (track s n now).tokens ≡ s.tokens
track-tokens s n now = ground arith

-- A deduction of at least 2^64 - 2^62 tokens (below 2^64) is cast to a negative `i64`: the bucket is credited with
-- 2^64 - n tokens, on top of its refill.
pub consume_n-huge :
    (l : TpmLimiter) (n now : ℕ)
    → InRange l.capacity now l.state
    → u64_mod ≤ n + 2 ^ 62
    → n < u64_mod
    → (consume_n l n now).state.tokens ≡ (refill l.state l.capacity now).tokens +ℤ pos (u64_mod - n)
unfolding consume_n
consume_n-huge l n now h lo hi =
    let s = refill l.state l.capacity now in
    let r = refill-Refilled l.state l.capacity now h in
    let fits : wrap_i64 (s.tokens +ℤ pos (u64_mod - 1 - n + 1))
        ≡ s.tokens +ℤ pos (u64_mod - 1 - n + 1) =
      wrap_i64-fits _ (omega (arith, +ℤ_bounds s.tokens (pos (u64_mod - 1 - n + 1)))) in
    let same : u64_mod - 1 - n + 1 ≡ u64_mod - n = omega arith in
    track-tokens (spend s n) n now ∙ rw (as_i64_huge n (omega arith) hi, minus_negative, fits, same)
