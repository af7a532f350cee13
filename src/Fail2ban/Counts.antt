-- ===== src/Fail2ban/Counts.antt =====
-- src/fail2ban/breaker.rs: the failures in a row that ban an endpoint.
use rust_ai_router.Base.{
  ℕ, ◌+◌, ◌≤◌, ◌<◌, u32_mod, ◌≡◌, refl, ◌∙◌, true, List, [], ◌∷◌, Str, same_refl, length, ltb,
  arith, Float,
}
use rust_ai_router.Base.Dict.{get-put}
use rust_ai_router.Fail2ban.{Fail2ban, record_failure_with_code, state_of}
use rust_ai_router.Fail2ban.Bans.{banned_at, banned_at-record_failure}

module _ {F : Type 0} ⦃fl : Float F⦄ where
  -- The state after failures of one endpoint, each with its status code and time.
  unfoldable pub fail_all : Fail2ban F → Str → List (ℕ × ℕ) → Fail2ban F
  fail_all fb key [] = fb
  fail_all fb key ((code, now) ∷ es) = fail_all (record_failure_with_code fb key code now).1 key es

  consecutive-record_failure :
      (fb : Fail2ban F) (key : Str) (code now : ℕ)
      → (state_of fb key).consecutive_failures + 1 < u32_mod
      → ((state_of (record_failure_with_code fb key code now).1 key).consecutive_failures
          ≡ (state_of fb key).consecutive_failures + 1)
        × ((record_failure_with_code fb key code now).1.max_failures ≡ fb.max_failures)
        × ((record_failure_with_code fb key code now).1.ban_duration ≡ fb.ban_duration)
  unfolding record_failure_with_code
  consecutive-record_failure fb key code now h = grind (arith, same_refl, get-put)

  fail_all-consecutive :
      (fb : Fail2ban F) (key : Str) (es : List (ℕ × ℕ))
      → (state_of fb key).consecutive_failures + length es < u32_mod
      → ((state_of (fail_all fb key es) key).consecutive_failures
          ≡ (state_of fb key).consecutive_failures + length es)
        × ((fail_all fb key es).max_failures ≡ fb.max_failures)
        × ((fail_all fb key es).ban_duration ≡ fb.ban_duration)
  unfolding fail_all
  fail_all-consecutive fb key [] h = (omega arith, refl, refl)
  fail_all-consecutive fb key ((code, now) ∷ es) h =
      let (a, b, c) = consecutive-record_failure fb key code now (omega arith) in
      let (d, e, f) =
        fail_all-consecutive (record_failure_with_code fb key code now).1 key es (omega arith) in
      (omega arith, e ∙ b, f ∙ c)

  bans_at_max :
      (fb : Fail2ban F) (key : Str) (code now : ℕ)
      → fb.max_failures ≤ (state_of fb key).consecutive_failures + 1
      → (state_of fb key).consecutive_failures + 1 < u32_mod
      → (record_failure_with_code fb key code now).0 ≡ true
  unfolding record_failure_with_code
  bans_at_max fb key code now h room = ground arith

  -- When failures with no success between them bring the consecutive failures of an endpoint to the
  -- maximum, the last one of them bans it: `is_banned` says so until the ban duration is over, and
  -- not afterwards. (Fewer than 2^32 failures, so that the counter does not wrap.)
  pub fail_all-bans :
      (fb : Fail2ban F) (key : Str) (es : List (ℕ × ℕ)) (code now t : ℕ)
      → fb.max_failures ≤ (state_of fb key).consecutive_failures + length es + 1
      → (state_of fb key).consecutive_failures + length es + 1 < u32_mod
      → ((record_failure_with_code (fail_all fb key es) key code now).0 ≡ true)
        × (banned_at (record_failure_with_code (fail_all fb key es) key code now).1 key t
            ≡ ltb t (now + fb.ban_duration))
  fail_all-bans fb key es code now t h room =
      let (a, b, c) = fail_all-consecutive fb key es (omega arith) in
      let hit = bans_at_max (fail_all fb key es) key code now (omega arith) (omega arith) in
      (hit, rw (banned_at-record_failure, same_refl, hit, c))
