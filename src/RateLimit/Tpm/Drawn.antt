-- ===== src/RateLimit/Tpm/Drawn.antt =====
-- What one call of a bucket takes, and what it leaves.
use rust_ai_router.Base.{
  ℕ, ◌+◌, ◌*◌, ◌^◌, ◌≤◌, ◌<◌, max, ◌≡◌, refl, ap, ◌∙◌, inl, inr, true, false, none, some,
  Bool-cases, arith, if◌then◌else◌, is_some, Float,
}
use rust_ai_router.Base.Int.{
  ℤ, pos, pos_part, neg_part, ◌-ℤ◌, ltb_ℤ, wrap_i64-fits, -ℤ_parts, -ℤ_bounds,
}
use rust_ai_router.RateLimit.Tpm.{
  TpmState, TpmLimiter, as_i64, refill, track, spend, check_n, consume_n, wait_secs,
}
use rust_ai_router.RateLimit.Tpm.Bucket.{minute, InRange, Refilled, refill-Refilled, spend_lem}

-- A call of `check_n` or of `consume_n`, with its amount and time.
pub data Draw : Type 0 where
  checks consumes : ℕ → ℕ → Draw

abbrev pub amount : Draw → ℕ
amount (checks n now) = n
amount (consumes n now) = n

abbrev pub time : Draw → ℕ
time (checks n now) = now
time (consumes n now) = now

-- What a step or a history that takes `taken` tokens does to the balance: it is paid for from the
-- balance and from what the time is worth.
pub record Paid (taken : ℕ) (before after : TpmLimiter) : Type 0 where
  pub same_capacity : after.capacity ≡ before.capacity
  pub paid :
      minute * taken
        + minute * pos_part after.state.tokens
        + before.state.last_update * before.capacity
        + minute * neg_part before.state.tokens
      ≤ minute * pos_part before.state.tokens
        + after.state.last_update * before.capacity
        + minute * neg_part after.state.tokens
  pub balance : pos_part after.state.tokens ≤ max before.capacity (pos_part before.state.tokens)

-- A call at `now` that takes `taken` tokens.
pub record Drawn (now taken : ℕ) (before after : TpmLimiter) : Type 0 where
  pub account : Paid taken before after
  pub updated : after.state.last_update ≤ now
  pub debt : neg_part after.state.tokens ≤ neg_part before.state.tokens + taken

refill-Drawn :
    (l : TpmLimiter) (s : TpmState) (now : ℕ)
    → Refilled l.capacity now l.state s
    → Drawn now 0 l (record l { state = s })
refill-Drawn l s now r = record {
  account = record { same_capacity = refl; paid = omega arith; balance = omega arith };
  updated = omega arith;
  debt = omega arith;
}

spent-Drawn :
    (l : TpmLimiter) (s s' : TpmState) (n now : ℕ)
    → Refilled l.capacity now l.state s
    → s'.tokens ≡ s.tokens -ℤ pos n
    → s'.last_update ≡ s.last_update
    → Drawn now n l (record l { state = s' })
spent-Drawn l s s' n now r e u =
    let p : pos_part s'.tokens ≡ pos_part (s.tokens -ℤ pos n) = ap pos_part e in
    let q : neg_part s'.tokens ≡ neg_part (s.tokens -ℤ pos n) = ap neg_part e in
    record {
      account = record {
        same_capacity = refl;
        paid = omega (arith, -ℤ_parts s.tokens (pos n), ap (λ t. t * l.capacity) u);
        balance = omega (arith, -ℤ_bounds s.tokens (pos n));
      };
      updated = omega arith;
      debt = omega (arith, -ℤ_bounds s.tokens (pos n));
    }

pub Paid-trans : (a b : ℕ) (l m n : TpmLimiter) → Paid a l m → Paid b m n → Paid (a + b) l n
Paid-trans a b l m n p q =
    let c = p.same_capacity in
    record {
      same_capacity = q.same_capacity ∙ c;
      paid =
          omega (arith, ap (λ t. m.state.last_update * t) c, ap (λ t. n.state.last_update * t) c);
      balance = omega arith;
    }

-- Tokens that are enough leave no debt behind.
no_debt : (t : ℤ) (n : ℕ) → ltb_ℤ t (pos n) ≡ false → neg_part (t -ℤ pos n) ≡ 0
unfolding ◌-ℤ◌
no_debt t n h = ground arith

module _ (F : Type 0) ⦃fl : Float F⦄ where
  -- The tokens that a call takes, and the limiter after it.
  unfoldable pub draw : TpmLimiter → Draw → ℕ × TpmLimiter
  draw l (checks n now) =
      let (answer, l') = check_n {F = F} l n now in (if is_some answer then 0 else n, l')
  draw l (consumes n now) = (n, consume_n l n now)

  check_n_short :
      (l : TpmLimiter) (n now : ℕ)
      → ltb_ℤ (refill l.state l.capacity now).tokens (as_i64 n) ≡ true
      → check_n {F = F} l n now ≡ (
        some (wait_secs (refill l.state l.capacity now) l.capacity n),
        record l { state = refill l.state l.capacity now },
      )
  unfolding check_n
  check_n_short l n now short = rw (short, check_n)

  check_n_enough :
      (l : TpmLimiter) (n now : ℕ)
      → ltb_ℤ (refill l.state l.capacity now).tokens (as_i64 n) ≡ false
      → check_n {F = F} l n now
        ≡ (none, record l { state = track (spend (refill l.state l.capacity now) n) n now })
  unfolding check_n
  check_n_enough l n now enough = rw (enough, check_n)

  draw_short :
      (l : TpmLimiter) (n now : ℕ)
      → ltb_ℤ (refill l.state l.capacity now).tokens (as_i64 n) ≡ true
      → draw l (checks n now) ≡ (0, record l { state = refill l.state l.capacity now })
  unfolding draw
  draw_short l n now short = rw (check_n_short l n now short)

  draw_enough :
      (l : TpmLimiter) (n now : ℕ)
      → ltb_ℤ (refill l.state l.capacity now).tokens (as_i64 n) ≡ false
      → draw l (checks n now)
        ≡ (n, record l { state = track (spend (refill l.state l.capacity now) n) n now })
  unfolding draw
  draw_enough l n now enough = rw (check_n_enough l n now enough)

  check-Drawn :
      (l : TpmLimiter) (n now : ℕ)
      → InRange l.capacity now l.state
      → n < 2 ^ 62
      → Drawn now (draw l (checks n now)).0 l (draw l (checks n now)).1
  check-Drawn l n now h small =
      let s = refill l.state l.capacity now in
      let r = refill-Refilled l.state l.capacity now h in
      let (e, u) = spend_lem s n now small (omega arith) (omega arith) in
      elim (Bool-cases (ltb_ℤ s.tokens (as_i64 n))) [
        | inl short ↦ rw (draw_short l n now short) (refill-Drawn l s now r)
        | inr enough ↦
            rw (draw_enough l n now enough) (spent-Drawn l s (track (spend s n) n now) n now r e u)
      ]

  pub draw-Drawn :
      (l : TpmLimiter) (d : Draw)
      → InRange l.capacity (time d) l.state
      → amount d < 2 ^ 62
      → Drawn (time d) (draw l d).0 l (draw l d).1
  unfolding draw consume_n
  draw-Drawn l (checks n now) h small = check-Drawn l n now h small
  draw-Drawn l (consumes n now) h small =
      let s = refill l.state l.capacity now in
      let r = refill-Refilled l.state l.capacity now h in
      let (e, u) = spend_lem s n now small (omega arith) (omega arith) in
      spent-Drawn l s (track (spend s n) n now) n now r e u

  pub check_no_debt :
      (l : TpmLimiter) (n now : ℕ)
      → InRange l.capacity now l.state
      → n < 2 ^ 62
      → neg_part l.state.tokens ≡ 0
      → neg_part (draw l (checks n now)).1.state.tokens ≡ 0
  check_no_debt l n now h small zero_debt =
      let s = refill l.state l.capacity now in
      let r = refill-Refilled l.state l.capacity now h in
      let (e, u) = spend_lem s n now small (omega arith) (omega arith) in
      elim (Bool-cases (ltb_ℤ s.tokens (as_i64 n))) [
        | inl short ↦ rw (draw_short l n now short) (omega arith)
        | inr enough ↦
            rw (draw_enough l n now enough, e)
              (no_debt s.tokens n (rw (wrap_i64-fits (pos n) (omega arith)) at enough))
      ]

  pub draw-le : (l : TpmLimiter) (d : Draw) → (draw l d).0 ≤ amount d
  unfolding draw
  draw-le l (checks n now) = ground arith
  draw-le l (consumes n now) = omega arith
