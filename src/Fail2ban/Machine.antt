-- ===== src/Fail2ban/Machine.antt =====
-- src/fail2ban/breaker.rs: the breaker against one small machine for each endpoint.
use mathlib.Core.Path.{subst}
use native.Mathlib.Nat.{zero-add}
use rust_ai_router.Base.{
  ℕ, suc, ◌+◌, ◌≤◌, ◌<◌, u32_mod, ◌≡◌, refl, ◌∙◌, Bool, false, ◌||◌, ◌&&◌, Option, none, some, List,
  [], ◌∷◌, Str, same, same_iff, length, ltb, leb, from_secs, if◌then◌else◌, arith, Float,
}
use rust_ai_router.Base.Dict.{get, get-put}
use rust_ai_router.Fail2ban.{
  Fail2ban, EndpointState, is_banned, reset, record_success, record_failure_with_code, state_of,
  running, new,
}

-- A call that changes the breaker; each is made for an endpoint at a time.
pub data Call : Type 0 where
  succeeds fails checks resets : Call

-- What is known of an endpoint, in numbers without bound.
pub record Endpoint : Type 0 where
  pub requests : ℕ
  pub failures : ℕ
  pub consecutive : ℕ
  pub until : Option ℕ
  pub last_code : ℕ

abbrev pub unseen : Endpoint
unseen = record { requests = 0; failures = 0; consecutive = 0; until = none; last_code = 0 }

abbrev pub is_over : Option ℕ → ℕ → Bool
is_over none now = false
is_over (some until) now = leb until now

abbrev pub lasts : Option ℕ → ℕ → Bool
lasts none now = false
lasts (some until) now = ltb now until

running-lasts : (until : Option ℕ) (now : ℕ) → running until now ≡ lasts until now
running-lasts none now = refl
running-lasts (some until) now = refl

abbrev pub forgiven : Endpoint → Endpoint
forgiven e = record e { consecutive = 0; until = none }

-- The machine of one endpoint, with the settings of the breaker.
module _ {F : Type 0} ⦃fl : Float F⦄ (max_failures duration : ℕ) (threshold : F) where
  -- Too many failures in a row, or too large a share of ten requests or more.
  abbrev pub too_many : ℕ → ℕ → ℕ → Bool
  too_many consecutive failures requests =
      leb max_failures consecutive
      || leb 10 requests && fl.gt (fl.div (fl.of_u64 failures) (fl.of_u64 requests)) threshold

  unfoldable pub moved : Call → ℕ → ℕ → Endpoint → Endpoint
  moved succeeds code now e = record e { requests = e.requests + 1; consecutive = 0 }
  moved fails code now e = record {
    requests = e.requests + 1;
    failures = e.failures + 1;
    consecutive = e.consecutive + 1;
    until =
        if too_many (e.consecutive + 1) (e.failures + 1) (e.requests + 1)
        then some (now + duration)
        else e.until;
    last_code = code;
  }
  moved checks code now e = if is_over e.until now then forgiven e else e
  moved resets code now e = forgiven e

  -- The machine of a key hears of the calls for this key alone.
  unfoldable pub moved_all : List (Call × Str × ℕ × ℕ) → Str → Endpoint → Endpoint
  unfolding moved same
  moved_all [] key e = e
  moved_all ((call, k, code, now) ∷ cs) key e =
      moved_all cs key (if same k key then moved call code now e else e)

-- A state that agrees with a machine after at most `n` calls.
pub record Agrees (n : ℕ) (st : EndpointState) (e : Endpoint) : Type 0 where
  pub requests : st.total_requests ≡ e.requests
  pub failures : st.total_failures ≡ e.failures
  pub consecutive : st.consecutive_failures ≡ e.consecutive
  pub until : st.banned_until ≡ e.until
  pub code : st.last_error_code ≡ e.last_code
  pub requests_le : e.requests ≤ n
  pub failures_le : e.failures ≤ n
  pub consecutive_le : e.consecutive ≤ n

module _ {F : Type 0} ⦃fl : Float F⦄ where
  -- One call with its endpoint, status code and time.
  unfoldable pub step : Fail2ban F → Call × Str × ℕ × ℕ → Fail2ban F
  step fb (succeeds, key, code, now) = record_success fb key
  step fb (fails, key, code, now) = (record_failure_with_code fb key code now).1
  step fb (checks, key, code, now) = (is_banned fb key now).1
  step fb (resets, key, code, now) = reset fb key

  unfoldable pub run : Fail2ban F → List (Call × Str × ℕ × ℕ) → Fail2ban F
  run fb [] = fb
  run fb (c ∷ cs) = run (step fb c) cs

  -- The settings do not change.
  pub record Settings (max_failures duration : ℕ) (threshold : F) (fb : Fail2ban F) : Type 0 where
    pub max : fb.max_failures ≡ max_failures
    pub long : fb.ban_duration ≡ duration
    pub share : fb.error_threshold ≡ threshold

  step-Settings :
      (fb : Fail2ban F) (c : Call × Str × ℕ × ℕ)
      → Settings fb.max_failures fb.ban_duration fb.error_threshold (step fb c)
  unfolding step record_success record_failure_with_code is_banned reset
  step-Settings fb (succeeds, key, code, now) = record { max = refl; long = refl; share = refl }
  step-Settings fb (fails, key, code, now) = grind arith
  step-Settings fb (checks, key, code, now) = grind arith
  step-Settings fb (resets, key, code, now) = grind arith

  step-Agrees :
      (fb : Fail2ban F) (call : Call) (k : Str) (code now n : ℕ) (key : Str) (e : Endpoint)
      → suc n < u32_mod
      → Agrees n (state_of fb key) e
      → Agrees (suc n) (state_of (step fb (call, k, code, now)) key) (
          if same k key
          then moved fb.max_failures fb.ban_duration fb.error_threshold call code now e
          else e)
  unfolding step moved record_success record_failure_with_code is_banned reset
  step-Agrees fb succeeds k code now n key e h v = grind (arith, same_iff, get-put)
  step-Agrees fb fails k code now n key e h v = grind (arith, same_iff, get-put)
  step-Agrees fb checks k code now n key e h v = grind (arith, same_iff, get-put)
  step-Agrees fb resets k code now n key e h v = grind (arith, same_iff, get-put)

  Settings-step :
      (fb : Fail2ban F) (c : Call × Str × ℕ × ℕ) (max_failures duration : ℕ) (threshold : F)
      → Settings max_failures duration threshold fb
      → Settings max_failures duration threshold (step fb c)
  Settings-step fb c max_failures duration threshold s =
      let kept = step-Settings fb c in
      record { max = kept.max ∙ s.max; long = kept.long ∙ s.long; share = kept.share ∙ s.share }

  moved-Settings :
      (fb : Fail2ban F) (max_failures duration : ℕ) (threshold : F) (call : Call) (code now : ℕ)
      (e : Endpoint)
      → Settings max_failures duration threshold fb
      → moved fb.max_failures fb.ban_duration fb.error_threshold call code now e
        ≡ moved max_failures duration threshold call code now e
  moved-Settings fb max_failures duration threshold call code now e s =
      rw (s.max, s.long, s.share) refl

  run-Agrees :
      (fb : Fail2ban F) (max_failures duration : ℕ) (threshold : F) (cs : List (Call × Str × ℕ × ℕ))
      (n : ℕ) (key : Str) (e : Endpoint)
      → Settings max_failures duration threshold fb
      → n + length cs < u32_mod
      → Agrees n (state_of fb key) e
      → Agrees
          (n + length cs)
          (state_of (run fb cs) key)
          (moved_all max_failures duration threshold cs key e)
  unfolding run moved_all
  run-Agrees fb m d t [] n key e s h v = let e0 : n + 0 ≡ n = omega arith in rw e0 v
  run-Agrees fb m d t ((call, k, code, now) ∷ cs) n key e s h v =
      let c : Call × Str × ℕ × ℕ = (call, k, code, now) in
      let one : n + suc (length cs) ≡ suc n + length cs = omega arith in
      rw one (
        run-Agrees (step fb c) m d t cs (suc n) key
          (if same k key then moved m d t call code now e else e) (Settings-step fb c m d t s)
          (omega arith)
          (subst (λ x. Agrees (suc n) (state_of (step fb c) key) (if same k key then x else e))
            (moved-Settings fb m d t call code now e s)
            (step-Agrees fb call k code now n key e (omega arith) v)))

  banned-Agrees :
      (fb : Fail2ban F) (key : Str) (n now : ℕ) (e : Endpoint)
      → Agrees n (state_of fb key) e
      → (is_banned fb key now).0 ≡ lasts e.until now
  unfolding is_banned
  banned-Agrees fb key n now e v = grind (arith, v.until, running-lasts)

  -- The breaker keeps one small machine for each endpoint, whose counters have no bound. Over any
  -- history of fewer than 2^32 calls from a new breaker, for any endpoints at any times: the three
  -- counters, the last code and the end of the ban that it holds of an endpoint are those of a
  -- machine that hears of the calls for this endpoint alone, so no counter wraps; and `is_banned`
  -- answers as that machine does.
  pub run-new-Agrees :
      (max_failures ban_secs : ℕ) (threshold : F) (codes : List Str)
      (cs : List (Call × Str × ℕ × ℕ)) (key : Str) (now : ℕ)
      → length cs < u32_mod
      → let fb = run (new max_failures ban_secs threshold codes) cs in
        let e = moved_all max_failures (from_secs ban_secs) threshold cs key unseen in
        Agrees (length cs) (state_of fb key) e × ((is_banned fb key now).0 ≡ lasts e.until now)
  unfolding new get
  run-new-Agrees max_failures ban_secs threshold codes cs key now h =
      let fb = new max_failures ban_secs threshold codes in
      let start : Agrees 0 (state_of fb key) unseen = record {
        requests = refl;
        failures = refl;
        consecutive = refl;
        until = refl;
        code = refl;
        requests_le = omega arith;
        failures_le = omega arith;
        consecutive_le = omega arith;
      } in
      let agrees = rw zero-add at (
        run-Agrees fb max_failures (from_secs ban_secs) threshold cs 0 key unseen
          (record { max = refl; long = refl; share = refl }) (omega arith) start) in
      (agrees, banned-Agrees (run fb cs) key (length cs) now _ agrees)
