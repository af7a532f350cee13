-- ===== src/Tests/Fail2ban.antt =====
-- src/fail2ban/breaker.rs on a new breaker.
use rust_ai_router.Base.{ℕ, ◌+◌, ◌≡◌, true, List, [], ◌∷◌, Str, bytes, from_secs, ltb, arith}
use rust_ai_router.Base.Dict
use rust_ai_router.Config.{default_fail_codes}
use rust_ai_router.Fail2ban
use rust_ai_router.Fail2ban.{
  is_banned, is_fail_status, record_success, record_failure_with_code, reset, state_of,
}
use rust_ai_router.Fail2ban.Bans.{banned_at}
use rust_ai_router.Fail2ban.Counts.{fail_all, fail_all-bans}
use rust_ai_router.Fail2ban.Machine.{
  Call, succeeds, fails, checks, unseen, lasts, moved_all, Agrees, run, run-new-Agrees,
}
use rust_ai_router.Samples.{milli, breaker}

-- Two failures, and the third one that bans for a minute.
fail_all-bans_example :
    ((record_failure_with_code
        (fail_all breaker (bytes "e") ((500, 1) ∷ (503, 2) ∷ []))
        (bytes "e")
        500
        3).0
      ≡ true)
    × (banned_at
          (record_failure_with_code
            (fail_all breaker (bytes "e") ((500, 1) ∷ (503, 2) ∷ []))
            (bytes "e")
            500
            3).1
          (bytes "e")
          4
        ≡ ltb 4 (3 + from_secs 60))
unfolding Fail2ban.new Dict.get
fail_all-bans_example =
    fail_all-bans breaker (bytes "e") ((500, 1) ∷ (503, 2) ∷ []) 500 3 4 (omega arith) (omega arith)

abbrev history : List (Call × Str × ℕ × ℕ)
history = (fails, bytes "e", 500, 1) ∷ (succeeds, bytes "e", 0, 2) ∷ (checks, bytes "f", 0, 3) ∷ []

run-new-Agrees_example :
    let fb = run {F = ℕ} (Fail2ban.new 3 60 50_000 default_fail_codes) history in
    let e = moved_all {F = ℕ} 3 (from_secs 60) 50_000 history (bytes "e") unseen in
    Agrees 3 (state_of fb (bytes "e")) e × ((is_banned fb (bytes "e") 4).0 ≡ lasts e.until 4)
run-new-Agrees_example =
    run-new-Agrees 3 60 50_000 default_fail_codes history (bytes "e") 4 (omega arith)

abbrev too_many : ℕ
too_many = 429
