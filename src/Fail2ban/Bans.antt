-- ===== src/Fail2ban/Bans.antt =====
-- Who is banned, and until when.
use rust_ai_router.Base.{
  ℕ, ◌+◌, ◌%◌, ◌≤◌, u64_mod, ◌≡◌, Bool, false, Str, same, same_iff, ltb, if◌then◌else◌, arith,
  Float,
}
use rust_ai_router.Base.Dict.{get-put}
use rust_ai_router.Fail2ban.{
  Fail2ban, is_banned, reset, record_success, record_failure_with_code, state_of,
}

module _ {F : Type 0} where
  -- What `is_banned` answers.
  abbrev pub banned_at : Fail2ban F → Str → ℕ → Bool
  banned_at fb key t = (is_banned fb key t).0

  -- A success lifts no ban and imposes none, on any endpoint.
  pub banned_at-record_success :
      (fb : Fail2ban F) (key other : Str) (t : ℕ)
      → banned_at (record_success fb key) other t ≡ banned_at fb other t
  unfolding is_banned record_success
  banned_at-record_success fb key other t = ground (
    arith,
    same_iff key other,
    get-put fb.states key other (record (state_of fb key) {
      total_requests = ((state_of fb key).total_requests + 1) % u64_mod;
      consecutive_failures = 0;
    }),
  )

  -- A reset lifts the ban of its endpoint and of no other.
  pub banned_at-reset :
      (fb : Fail2ban F) (key other : Str) (t : ℕ)
      → banned_at (reset fb key) other t ≡ (if same key other then false else banned_at fb other t)
  unfolding is_banned reset
  banned_at-reset fb key other t = grind (arith, same_iff, get-put)

  -- Asking whether an endpoint is banned, which clears a ban that is over, changes no answer from
  -- then on, for any endpoint.
  pub banned_at-is_banned :
      (fb : Fail2ban F) (key other : Str) (now later : ℕ)
      → now ≤ later
      → banned_at (is_banned fb key now).1 other later ≡ banned_at fb other later
  unfolding is_banned
  banned_at-is_banned fb key other now later h = grind (arith, same_iff, get-put)

module _ {F : Type 0} ⦃fl : Float F⦄ where
  -- A failure that asks for a ban bans its endpoint for the ban duration from now on; one that does
  -- not leaves the endpoint's ban as it was. No other endpoint is concerned.
  pub banned_at-record_failure :
      (fb : Fail2ban F) (key other : Str) (code now t : ℕ)
      → banned_at (record_failure_with_code fb key code now).1 other t ≡ (
          if same key other
          then (if (record_failure_with_code fb key code now).0
              then ltb t (now + fb.ban_duration)
              else banned_at fb other t)
          else banned_at fb other t)
  unfolding is_banned record_failure_with_code
  banned_at-record_failure fb key other code now t = grind (arith, same_iff, get-put)
