-- ===== src/Sync/Window.antt =====
-- The shared request limit, against a server whose counter counts.
use rust_ai_router.Base.{
  ◌-◌, min, ◌++◌, bytes, ℕ, zero, suc, ◌+◌, ◌<◌, ◌≡◌, ap, some, Str, leb, ◌==◌, if◌then◌else◌,
  arith, Float,
}
use rust_ai_router.Sync.{Redis, SyncStore, check_rate_limit}

module _ {R : Type 0} ⦃redis : Redis R⦄ where
  -- While the key lives, `INCR` returns one more each time, and `EXPIRE` leaves the count.
  pub record Counting (count : R → Str → ℕ) : Type 0 where
    pub incr_count : (conn : R) (key : Str) → (redis.incr conn key).0 ≡ some (count conn key + 1)
    pub incr_after : (conn : R) (key : Str) → count (redis.incr conn key).1 key ≡ count conn key + 1
    pub expire_after :
        (conn : R) (key : Str) (secs : ℕ) → count (redis.expire conn key secs) key ≡ count conn key

  module _ (F : Type 0) ⦃fl : Float F⦄ where
    -- The number of requests that pass among `n` in a row on one key.
    unfoldable pub passed : SyncStore R → Str → Str → ℕ → ℕ → ℕ
    passed s scope key limit zero = 0
    passed s scope key limit (suc n) =
        let (answer, s') = check_rate_limit {F = F} s scope key limit in
        (if answer.allowed then 1 else 0) + passed s' scope key limit n

    module _ (count : R → Str → ℕ) (counting : Counting count) (prefix scope key : Str) (limit : ℕ)
        (pos : 0 < limit) where
      abbrev place : Str
      place = prefix ++ bytes ":rl:" ++ scope ++ bytes ":" ++ key

      abbrev store_on : R → SyncStore R
      store_on conn = record { conn = some conn; prefix = prefix }

      -- The connection after one check.
      abbrev counted_on : R → R
      counted_on conn =
          let conn' = (redis.incr conn place).1 in
          if (count conn place + 1) == 1 then redis.expire conn' place 60 else conn'

      one_check :
          (conn : R)
          → ((check_rate_limit {F = F} (store_on conn) scope key limit).0.allowed
              ≡ leb (count conn place + 1) limit)
            × ((check_rate_limit {F = F} (store_on conn) scope key limit).1
                ≡ store_on (counted_on conn))
      unfolding check_rate_limit
      one_check conn = (grind (arith, counting.incr_count), grind (arith, counting.incr_count))

      count-counted_on : (conn : R) → count (counted_on conn) place ≡ count conn place + 1
      count-counted_on conn = grind (arith, counting.incr_after, counting.expire_after)

      -- With a server whose counter counts, of `n` requests in a row on one key within one window as many
      -- pass as a limit above 0 has left.
      pub passed-min :
          (n : ℕ) (conn : R)
          → passed (store_on conn) scope key limit n ≡ min n (limit - count conn place)
      unfolding passed
      passed-min zero conn = omega arith
      passed-min (suc n) conn =
          let rest = passed-min n (counted_on conn) in
          let (answer, after) = one_check conn in
          let more = count-counted_on conn in
          ground (arith, rest, answer, ap (λ s. passed s scope key limit n) after, more)
