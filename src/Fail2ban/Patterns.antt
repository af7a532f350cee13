-- ===== src/Fail2ban/Patterns.antt =====
-- The status patterns.
use rust_ai_router.Base.{
  ℕ, ◌≤◌, ◌≡◌, refl, ◌↔◌, ◌⊎◌, true, arith, [], ◌∷◌, trim, parse_u16, eq_ignore_ascii_case,
}
use rust_ai_router.Config.{default_fail_codes}
use rust_ai_router.Fail2ban.{range, exact, new, is_fail_status, parse_fail_patterns, parse_pattern}

default_patterns :
    parse_fail_patterns default_fail_codes ≡ range 500 599 ∷ exact 401 ∷ exact 403 ∷ exact 429 ∷ []
unfolding parse_fail_patterns parse_pattern trim parse_u16 eq_ignore_ascii_case
default_patterns = refl

-- With the default patterns, the failures are the 5xx statuses, 401, 403 and 429.
pub is_fail_status-default :
    {F : Type 0} (max_failures ban_secs : ℕ) (threshold : F) (status : ℕ)
    → (is_fail_status (new max_failures ban_secs threshold default_fail_codes) status ≡ true)
      ↔ (((500 ≤ status) × (status ≤ 599)) ⊎ (status ≡ 401) ⊎ (status ≡ 403) ⊎ (status ≡ 429))
unfolding new is_fail_status
is_fail_status-default max_failures ban_secs threshold status = rw default_patterns (ground arith)
