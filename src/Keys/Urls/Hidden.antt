-- ===== src/Keys/Urls/Hidden.antt =====
-- src/utils.rs: what a masked address does not show.
use rust_ai_router.Base.{
  ℕ, ◌+◌, suc, ◌≡◌, refl, ap, ◌∙◌, ◌==◌, false, some, [], ◌∷◌, ◌++◌, Str, bytes, find_str,
  starts_with, strip_prefix, length, drop, any, arith,
}
use rust_ai_router.Keys.Urls.{mask_redis_url}

find_str-byte :
    (a b : Str)
    → any (λ c. c == b'@') a ≡ false
    → find_str (a ++ b'@' ∷ b) (bytes "@") ≡ some (length a)
unfolding find_str starts_with strip_prefix
find_str-byte [] b h = refl
find_str-byte (c ∷ a) b h = ground (arith, h, find_str-byte a b)

drop-past : (a : Str) (c : ℕ) (b : Str) → drop (length a + 1) (a ++ c ∷ b) ≡ b
drop-past [] c b = refl
drop-past (d ∷ a) c b =
    let e : suc (length a) + 1 ≡ suc (length a + 1) = omega arith in
    ap (λ n. drop n (d ∷ a ++ c ∷ b)) e ∙ drop-past a c b

-- The masked address of a Redis server shows what follows the first `@`, and nothing of what stands
-- before it.
pub mask_redis_url-hides :
    (secret b : Str)
    → any (λ c. c == b'@') secret ≡ false
    → mask_redis_url (secret ++ b'@' ∷ b) ≡ bytes "redis://***@" ++ b
unfolding mask_redis_url
mask_redis_url-hides secret b h =
    rw (mask_redis_url, find_str-byte secret b h)
      (ap (λ s. bytes "redis://***@" ++ s) (drop-past secret b'@' b))
