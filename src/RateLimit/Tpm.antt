-- ===== src/RateLimit/Tpm.antt =====
-- The token bucket `TpmLimiter` of src/ratelimit/limiter.rs. Tokens are `i64` values: sums and
-- casts wrap at 2^64, as in a release build. `now` is the time that the call reads from the clock,
-- in nanoseconds; the one or two readings of a call are taken to be equal.
pub mod Bucket
pub mod Budget
pub mod Drawn
pub mod Recovery
use rust_ai_router.Base.{
  ℕ, ◌+◌, ◌-◌, ◌*◌, ◌/◌, ◌%◌, ◌^◌, ◌≤◌, ◌<◌, min, max, u64_mod, as_millis, from_secs, Bool, Option,
  none, some, ltb, if◌then◌else◌, Float,
}
use rust_ai_router.Base.Int.{ℤ, pos, ◌+ℤ◌, ◌-ℤ◌, ltb_ℤ, min_ℤ, wrap_i64, saturate_i64}

pub record TpmState : Type 0 where
  pub tokens : ℤ
  pub last_update : ℕ
  pub window_start : ℕ
  pub window_consumed : ℕ

pub record TpmLimiter : Type 0 where
  pub capacity : ℕ
  pub state : TpmState

-- `n as i64` for an unsigned `n`: its low 64 bits in two's complement.
abbrev pub as_i64 : ℕ → ℤ
as_i64 n = wrap_i64 (pos n)

unfoldable pub new : ℕ → ℕ → TpmLimiter
new capacity now = record {
  capacity = capacity;
  state = record {
    tokens = as_i64 (max capacity 1);
    last_update = now;
    window_start = now;
    window_consumed = 0;
  };
}

-- The tokens that the time since the last update is worth.
unfoldable pub earned : TpmState → ℕ → ℕ → ℕ
earned s capacity now = as_millis (now - s.last_update) % u64_mod * capacity / 60_000

-- `refill`; no time and no token earned leave the state as it is.
unfoldable pub refill : TpmState → ℕ → ℕ → TpmState
refill s capacity now =
    let add = as_i64 (earned s capacity now) in
    if ltb_ℤ (pos 0) add
    then record s {
      tokens = min_ℤ (wrap_i64 (s.tokens +ℤ add)) (as_i64 capacity);
      last_update = now;
    }
    else s

-- The bookkeeping of the last 60 seconds, which `check_n` and `consume_n` share.
abbrev pub track : TpmState → ℕ → ℕ → TpmState
track s n now =
    if ltb (from_secs 60) (now - s.window_start)
    then record s { window_start = now; window_consumed = n }
    else record s { window_consumed = min (s.window_consumed + n) (u64_mod - 1) }

-- `s.tokens -= n as i64`
abbrev pub spend : TpmState → ℕ → TpmState
spend s n = record s { tokens = wrap_i64 (s.tokens -ℤ as_i64 n) }

-- `consume_n`
unfoldable pub consume_n : TpmLimiter → ℕ → ℕ → TpmLimiter
consume_n l n now = record l { state = track (spend (refill l.state l.capacity now) n) n now }

-- `remaining`
unfoldable pub remaining : TpmLimiter → ℕ → ℤ × TpmLimiter
remaining l now = let s = refill l.state l.capacity now in (s.tokens, record l { state = s })

-- `window_remaining`
unfoldable pub window_remaining : TpmLimiter → ℕ → ℤ × TpmLimiter
window_remaining l now =
    let s =
      if ltb (from_secs 60) (now - l.state.window_start)
      then record l.state { window_start = now; window_consumed = 0 }
      else l.state in
    (saturate_i64 (as_i64 l.capacity -ℤ as_i64 s.window_consumed), record l { state = s })

module _ {F : Type 0} ⦃fl : Float F⦄ where
  -- The wait that a refused call reports.
  unfoldable pub wait_secs : TpmState → ℕ → ℕ → F
  wait_secs s capacity n =
      if ltb 0 capacity
      then fl.div (fl.mul (fl.of_i64 (wrap_i64 (as_i64 n -ℤ s.tokens))) (fl.of_u64 60))
          (fl.of_u64 capacity)
      else fl.of_u64 60

  -- `check_n`: `none` is `Ok(())`, and `some` the wait of the error. A refused call keeps the
  -- refill.
  unfoldable pub check_n : TpmLimiter → ℕ → ℕ → Option F × TpmLimiter
  check_n l n now =
      let s = refill l.state l.capacity now in
      if ltb_ℤ s.tokens (as_i64 n)
      then (some (wait_secs s l.capacity n), record l { state = s })
      else (none, record l { state = track (spend s n) n now })
