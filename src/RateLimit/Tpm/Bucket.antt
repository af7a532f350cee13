-- ===== src/RateLimit/Tpm/Bucket.antt =====
-- The token bucket's budget.
use native.Mathlib.Nat.{mul-le-mul_right}
use rust_ai_router.Base.{
  ℕ, ◌+◌, ◌-◌, ◌*◌, ◌/◌, ◌%◌, ◌^◌, ◌≤◌, ◌<◌, max, u64_mod, as_millis, ◌≡◌, ap, arith, ltb,
  if◌then◌else◌,
}
use rust_ai_router.Base.Int.{
  pos, pos_part, neg_part, ◌+ℤ◌, ◌-ℤ◌, min_ℤ, wrap_i64, wrap_i64-fits, +ℤ_parts, +ℤ_bounds,
  -ℤ_bounds,
}
use rust_ai_router.RateLimit.Tpm.{TpmState, earned, refill, track, spend}

-- Nanoseconds in a minute.
abbrev pub minute : ℕ
minute = 60_000_000_000

scale :
    (d last now m e c : ℕ)
    → d + last ≡ now
    → 1_000_000 * m ≤ d
    → 60_000 * e ≤ m * c
    → minute * e + last * c ≤ now * c
scale d last now m e c split ms tokens =
    let long : 1_000_000 * m * c ≤ d * c = mul-le-mul_right c ms in
    let both : (d + last) * c ≡ now * c = ap (λ t. t * c) split in omega arith

-- A token is earned for each `minute / capacity` that has passed, rounded down.
earned-le :
    (s : TpmState) (capacity now : ℕ)
    → s.last_update ≤ now
    → minute * earned s capacity now + s.last_update * capacity ≤ now * capacity
unfolding earned
earned-le s capacity now h =
    scale (now - s.last_update) s.last_update now (as_millis (now - s.last_update) % u64_mod)
      (as_millis (now - s.last_update) % u64_mod * capacity / 60_000) capacity (omega arith)
      (omega arith) (omega arith)

-- The inputs for which no `i64` wraps: capacity and balance below 2^62 in size, and times at which
-- fewer than 2^62 tokens can have been earned.
pub record InRange (capacity now : ℕ) (s : TpmState) : Type 0 where
  pub capacity_fits : capacity < 2 ^ 62
  pub balance_fits : pos_part s.tokens < 2 ^ 62
  pub debt_fits : neg_part s.tokens < 2 ^ 62
  pub time_fits : now * capacity < minute * 2 ^ 62
  pub in_order : s.last_update ≤ now

-- A refill adds at most what the time since the last update is worth, and never more than fills
-- the bucket.
pub record Refilled (capacity now : ℕ) (s r : TpmState) : Type 0 where
  pub worth :
      minute * pos_part r.tokens + s.last_update * capacity + minute * neg_part s.tokens
      ≤ minute * pos_part s.tokens + r.last_update * capacity + minute * neg_part r.tokens
  pub debt : neg_part r.tokens ≤ neg_part s.tokens
  pub balance : pos_part r.tokens ≤ max capacity (pos_part s.tokens)
  pub updated : s.last_update ≤ r.last_update
  pub not_later : r.last_update ≤ now

-- Without wrapping, a refill is this.
unfoldable pub refill_plain : TpmState → ℕ → ℕ → ℕ → TpmState
refill_plain s capacity now e =
    if ltb 0 e
    then record s { tokens = min_ℤ (s.tokens +ℤ pos e) (pos capacity); last_update = now }
    else s

pub earned_fits :
    (s : TpmState) (capacity now : ℕ) → InRange capacity now s → earned s capacity now < 2 ^ 62
earned_fits s capacity now h = omega (arith, earned-le s capacity now h.in_order)

pub refill-eq-plain :
    (s : TpmState) (capacity now : ℕ)
    → InRange capacity now s
    → refill s capacity now ≡ refill_plain s capacity now (earned s capacity now)
unfolding refill refill_plain
refill-eq-plain s capacity now h =
    let e = earned s capacity now in
    let small = earned_fits s capacity now h in
    let sum : wrap_i64 (s.tokens +ℤ pos e) ≡ s.tokens +ℤ pos e =
      wrap_i64-fits _ (omega (arith, +ℤ_bounds s.tokens (pos e))) in
    rw (wrap_i64-fits (pos e) (omega arith), wrap_i64-fits (pos capacity) (omega arith), sum)
      (ground arith)

plain-Refilled :
    (s : TpmState) (capacity now e : ℕ)
    → InRange capacity now s
    → minute * e + s.last_update * capacity ≤ now * capacity
    → Refilled capacity now s (refill_plain s capacity now e)
unfolding refill_plain
plain-Refilled s capacity now e h worth = ground (arith, +ℤ_parts s.tokens (pos e))

pub refill-Refilled :
    (s : TpmState) (capacity now : ℕ)
    → InRange capacity now s
    → Refilled capacity now s (refill s capacity now)
refill-Refilled s capacity now h =
    rw (refill-eq-plain s capacity now h) (
      plain-Refilled s capacity now (earned s capacity now) h (earned-le s capacity now h.in_order))

-- The same of a deduction of `n` tokens, and of the bookkeeping after it.
pub spend_lem :
    (s : TpmState) (n now : ℕ)
    → n < 2 ^ 62
    → pos_part s.tokens < 2 ^ 62
    → neg_part s.tokens < 2 ^ 62
    → ((track (spend s n) n now).tokens ≡ s.tokens -ℤ pos n)
      × ((track (spend s n) n now).last_update ≡ s.last_update)
spend_lem s n now hn hp hd =
    let fits : wrap_i64 (s.tokens -ℤ pos n) ≡ s.tokens -ℤ pos n =
      wrap_i64-fits _ (omega (arith, -ℤ_bounds s.tokens (pos n))) in
    (rw (wrap_i64-fits (pos n) (omega arith)) (ground arith), ground arith)
