-- ===== src/RateLimit/Tpm/Budget.antt =====
-- How many tokens a bucket hands out over a history of calls.
use native.Mathlib.Nat.{mul-le-mul_right}
use rust_ai_router.Base.{
  ℕ, ◌+◌, ◌*◌, ◌^◌, ◌≤◌, ◌<◌, max, ◌≡◌, refl, ap, List, [], ◌∷◌, arith, Float,
}
use rust_ai_router.Base.Int.{pos, pos_part, neg_part, wrap_i64-fits}
use rust_ai_router.RateLimit.Tpm.{TpmLimiter, new}
use rust_ai_router.RateLimit.Tpm.Bucket.{minute, InRange}
use rust_ai_router.RateLimit.Tpm.Drawn.{
  Draw, checks, consumes, amount, time, draw, Paid, Paid-trans, draw-Drawn, draw-le, check_no_debt,
}

-- The calls come in order of time, and no `i64` wraps: `spent` bounds the tokens asked for before.
abbrev pub Fits : ℕ → ℕ → ℕ → List Draw → Type 0
Fits capacity last spent [] = Unit
Fits capacity last spent (d ∷ ds) =
    (last ≤ time d)
    × (time d * capacity < minute * 2 ^ 62)
    × (spent + amount d < 2 ^ 62)
    × Fits capacity (time d) (spent + amount d) ds

abbrev pub Before : ℕ → List Draw → Type 0
Before horizon [] = Unit
Before horizon (d ∷ ds) = (time d ≤ horizon) × Before horizon ds

-- A history of checks alone.
abbrev pub Checks : List Draw → Type 0
Checks [] = Unit
Checks (checks n now ∷ ds) = Checks ds
Checks (consumes n now ∷ ds) = ⊥

module _ (F : Type 0) ⦃fl : Float F⦄ where
  unfoldable pub draw_all : TpmLimiter → List Draw → ℕ × TpmLimiter
  draw_all l [] = (0, l)
  draw_all l (d ∷ ds) =
      let (k, l') = draw F l d in let (rest, l'') = draw_all l' ds in (k + rest, l'')

  draw_all-Paid :
      (l : TpmLimiter) (ds : List Draw) (last spent : ℕ)
      → l.capacity < 2 ^ 62
      → pos_part l.state.tokens < 2 ^ 62
      → neg_part l.state.tokens ≤ spent
      → spent < 2 ^ 62
      → l.state.last_update ≤ last
      → Fits l.capacity last spent ds
      → Paid (draw_all l ds).0 l (draw_all l ds).1
  unfolding draw_all
  draw_all-Paid l [] last spent hc hp hn hs hl f = record {
    same_capacity = refl;
    paid = omega arith;
    balance = omega arith;
  }
  draw_all-Paid l (d ∷ ds) last spent hc hp hn hs hl f =
      let (k, l') = draw F l d in
      let r =
        draw-Drawn F l d
          (record {
            capacity_fits = hc;
            balance_fits = hp;
            debt_fits = omega arith;
            time_fits = f.1;
            in_order = omega arith;
          })
          (omega arith) in
      let rest =
        draw_all-Paid l' ds (time d) (spent + amount d) (omega arith) (omega arith)
          (omega (arith, draw-le F l d)) f.2 r.updated (rw r.account.same_capacity f.3) in
      Paid-trans k (draw_all l' ds).0 l l' (draw_all l' ds).1 r.account rest

  draw_all_no_debt :
      (l : TpmLimiter) (ds : List Draw) (last spent : ℕ)
      → l.capacity < 2 ^ 62
      → pos_part l.state.tokens < 2 ^ 62
      → neg_part l.state.tokens ≡ 0
      → l.state.last_update ≤ last
      → Fits l.capacity last spent ds
      → Checks ds
      → neg_part (draw_all l ds).1.state.tokens ≡ 0
  unfolding draw_all
  draw_all_no_debt l [] last spent hc hp hn hl f only = hn
  draw_all_no_debt l (consumes n now ∷ ds) last spent hc hp hn hl f only = absurd only
  draw_all_no_debt l (checks n now ∷ ds) last spent hc hp hn hl f only =
      let ok : InRange l.capacity now l.state = record {
        capacity_fits = hc;
        balance_fits = hp;
        debt_fits = omega arith;
        time_fits = f.1;
        in_order = omega arith;
      } in
      let r = draw-Drawn F l (checks n now) ok (omega arith) in
      draw_all_no_debt (draw F l (checks n now)).1 ds now (spent + n) (omega arith) (omega arith)
        (check_no_debt F l n now ok (omega arith) hn) r.updated (rw r.account.same_capacity f.3)
        only

  draw_all_not_later :
      (l : TpmLimiter) (ds : List Draw) (last spent horizon : ℕ)
      → l.capacity < 2 ^ 62
      → pos_part l.state.tokens < 2 ^ 62
      → neg_part l.state.tokens ≤ spent
      → spent < 2 ^ 62
      → l.state.last_update ≤ last
      → last ≤ horizon
      → Fits l.capacity last spent ds
      → Before horizon ds
      → (draw_all l ds).1.state.last_update ≤ horizon
  unfolding draw_all
  draw_all_not_later l [] last spent horizon hc hp hn hs hl hh f b = omega arith
  draw_all_not_later l (d ∷ ds) last spent horizon hc hp hn hs hl hh f b =
      let r =
        draw-Drawn F l d
          (record {
            capacity_fits = hc;
            balance_fits = hp;
            debt_fits = omega arith;
            time_fits = f.1;
            in_order = omega arith;
          })
          (omega arith) in
      draw_all_not_later (draw F l d).1 ds (time d) (spent + amount d) horizon (omega arith)
        (omega arith) (omega (arith, draw-le F l d)) f.2 r.updated b.0
        (rw r.account.same_capacity f.3) b.1

  -- The token bucket keeps its promise: from its creation at `start` to the time `horizon` the
  -- checks that succeed take no more tokens than the capacity (at least 1) and what the time is
  -- worth at the rate of one capacity a minute. (Times in nanoseconds and in order, amounts and
  -- capacity so small that no `i64` wraps.)
  pub draw_all_within_budget :
      (capacity start horizon : ℕ) (ds : List Draw)
      → capacity < 2 ^ 62
      → start ≤ horizon
      → Fits capacity start 0 ds
      → Before horizon ds
      → Checks ds
      → minute * (draw_all (new capacity start) ds).0 + start * capacity
        ≤ minute * max capacity 1 + horizon * capacity
  unfolding new
  draw_all_within_budget capacity start horizon ds hc hh f b only =
      let l = new capacity start in
      let full : l.state.tokens ≡ pos (max capacity 1) = wrap_i64-fits _ (omega arith) in
      let p : pos_part l.state.tokens ≡ max capacity 1 = ap pos_part full in
      let q : neg_part l.state.tokens ≡ 0 = ap neg_part full in
      let account =
        draw_all-Paid l ds start 0 hc (omega arith) (omega arith) (omega arith) (omega arith) f in
      let debt = draw_all_no_debt l ds start 0 hc (omega arith) q (omega arith) f only in
      let late =
        draw_all_not_later l ds start 0 horizon hc (omega arith) (omega arith) (omega arith)
          (omega arith) hh f b in
      omega (arith, mul-le-mul_right capacity late)
