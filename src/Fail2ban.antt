-- ===== src/Fail2ban.antt =====
-- src/fail2ban/breaker.rs. Each operation runs in one piece: the maps' entry locks and the
-- atomics' order are not modelled. `now` is what `Instant::now()` returns during the call.
pub mod Bans
pub mod Counts
pub mod Machine
pub mod Patterns
use rust_ai_router.Base.{
  ℕ, ◌+◌, ◌%◌, ◌≤◌, ◌<◌, u32_mod, u64_mod, from_secs, Bool, true, false, ◌&&◌, Option, none, some,
  List, [], ◌∷◌, Str, bytes, length, any, is_empty, get_or, map_or, ltb, leb, ◌==◌, if◌then◌else◌,
  trim, eq_ignore_ascii_case, parse_u16, Float,
}
use rust_ai_router.Base.Dict.{Dict, get, put}

pub record EndpointState : Type 0 where
  pub consecutive_failures : ℕ
  pub total_requests : ℕ
  pub total_failures : ℕ
  pub banned_until : Option ℕ
  pub last_error_code : ℕ

pub data FailPattern : Type 0 where
  range : ℕ → ℕ → FailPattern
  exact : ℕ → FailPattern

pub record Fail2ban (F : Type 0) : Type 0 where
  pub states : Dict EndpointState
  pub max_failures : ℕ
  pub ban_duration : ℕ
  pub error_threshold : F
  pub fail_patterns : List FailPattern

-- One pattern of `parse_fail_patterns`; an invalid one is dropped with a warning.
unfoldable pub parse_pattern : Str → Option FailPattern
parse_pattern code =
    let s = trim code in
    if eq_ignore_ascii_case s (bytes "5xx")
    then some (range 500 599)
    else if eq_ignore_ascii_case s (bytes "4xx")
    then some (range 400 499)
    else elim (parse_u16 s) [ some c ↦ some (exact c) | none ↦ none ]

unfoldable pub parse_fail_patterns : List Str → List FailPattern
parse_fail_patterns [] = []
parse_fail_patterns (code ∷ codes) = elim (parse_pattern code) [
  | none ↦ parse_fail_patterns codes
  | some p ↦ p ∷ parse_fail_patterns codes
]

abbrev pub matches : ℕ → FailPattern → Bool
matches status (range low high) = leb low status && leb status high
matches status (exact code) = status == code

-- What `ensure` inserts.
abbrev pub fresh_state : EndpointState
fresh_state = record {
  consecutive_failures = 0;
  total_requests = 0;
  total_failures = 0;
  banned_until = none;
  last_error_code = 0;
}

abbrev pub running : Option ℕ → ℕ → Bool
running none now = false
running (some until) now = ltb now until

abbrev pub expired : Option ℕ → ℕ → Bool
expired none now = false
expired (some until) now = leb until now

-- The three counters and the code that `record_failure_with_code` writes before it decides.
abbrev pub counted : EndpointState → ℕ → EndpointState
counted st status_code = record st {
  total_requests = (st.total_requests + 1) % u64_mod;
  total_failures = (st.total_failures + 1) % u64_mod;
  last_error_code = status_code;
  consecutive_failures = (st.consecutive_failures + 1) % u32_mod;
}

unfoldable pub banned_count : Dict EndpointState → ℕ → ℕ
banned_count [] now = 0
banned_count ((k, st) ∷ d) now =
    let rest = banned_count d now in if running st.banned_until now then rest + 1 else rest

module _ {F : Type 0} where
  unfoldable pub new : ℕ → ℕ → F → List Str → Fail2ban F
  new max_failures ban_duration_secs error_threshold_pct fail_status_codes = record {
    states = [];
    max_failures = max_failures;
    ban_duration = from_secs ban_duration_secs;
    error_threshold = error_threshold_pct;
    fail_patterns = parse_fail_patterns fail_status_codes;
  }

  -- The state that `ensure` gives for a key.
  abbrev pub state_of : Fail2ban F → Str → EndpointState
  state_of fb key = get_or (get fb.states key) fresh_state

  abbrev pub with_state : Fail2ban F → Str → EndpointState → Fail2ban F
  with_state fb key st = record fb { states = put fb.states key st }

  unfoldable pub is_banned : Fail2ban F → Str → ℕ → Bool × Fail2ban F
  is_banned fb key now = elim (get fb.states key) [
    | none ↦ (false, fb)
    | some st ↦
        if running st.banned_until now
        then (true, fb)
        else if expired st.banned_until now
        then (
          false,
          with_state fb key (record st { consecutive_failures = 0; banned_until = none }),
        )
        else (false, fb)
  ]

  unfoldable pub is_fail_status : Fail2ban F → ℕ → Bool
  is_fail_status fb status =
      if is_empty fb.fail_patterns then false else any (matches status) fb.fail_patterns

  unfoldable pub record_success : Fail2ban F → Str → Fail2ban F
  record_success fb key =
      let st = state_of fb key in
      with_state fb key
        (record st { total_requests = (st.total_requests + 1) % u64_mod; consecutive_failures = 0 })

  unfoldable pub reset : Fail2ban F → Str → Fail2ban F
  reset fb key = elim (get fb.states key) [
    | none ↦ fb
    | some st ↦ with_state fb key (record st { consecutive_failures = 0; banned_until = none })
  ]

  -- The reason as an error code, 0 standing for "network error" and any other for "HTTP {code}".
  unfoldable pub ban_reason : Fail2ban F → Str → ℕ → Option ℕ
  ban_reason fb key now = elim (get fb.states key) [
    | none ↦ none
    | some st ↦ if running st.banned_until now then some st.last_error_code else none
  ]

module _ {F : Type 0} ⦃fl : Float F⦄ where
  -- Whether the counters of a failing endpoint ask for a ban.
  abbrev pub bans : Fail2ban F → EndpointState → Bool
  bans fb st =
      if leb fb.max_failures st.consecutive_failures
      then true
      else leb 10 st.total_requests
        && fl.gt (fl.div (fl.of_u64 st.total_failures) (fl.of_u64 st.total_requests))
            fb.error_threshold

  unfoldable pub record_failure_with_code : Fail2ban F → Str → ℕ → ℕ → Bool × Fail2ban F
  record_failure_with_code fb key status_code now =
      let st = counted (state_of fb key) status_code in
      if bans fb st
      then (true, with_state fb key (record st { banned_until = some (now + fb.ban_duration) }))
      else (false, with_state fb key st)

  unfoldable pub record_failure : Fail2ban F → Str → ℕ → Bool × Fail2ban F
  unfolding record_failure_with_code
  record_failure fb key now = record_failure_with_code fb key 0 now
