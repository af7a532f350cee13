-- ===== src/Base/Decimal.antt =====
-- The decimal text of a number is read back.
use Prim.Native.Nat.{ℕ, zero, suc, ◌+◌, ◌-◌, ◌*◌, ◌/◌, ◌%◌, ◌≤◌, ◌<◌}
use mathlib.Core.Path.{◌≡◌, refl, sym, ap, ◌∙◌}
use mathlib.Core.Logic.{inl, inr}
use mathlib.Core.List.{[], ◌∷◌}
use mathlib.Core.Option.{none, some}
use native.Mathlib.Omega.{arith}
use rust_ai_router.Base.Tests.{ltb, ltb→lt, lt→ltb, Bool-cases}
use rust_ai_router.Base.Text.{
  Str, bytes, strip_prefix, digits, digits_from, print_digits, to_string,
}

-- The numbers that so many digits can write.
abbrev pub bound : ℕ → ℕ
bound zero = 1
bound (suc places) = 10 * bound places

digits_from-digit :
    (acc c : ℕ) (after : Str)
    → c < 10
    → digits_from acc ((b'0' + c) ∷ after) ≡ digits_from (acc * 10 + c) after
unfolding digits_from
digits_from-digit acc c after h =
    let e : b'0' + c - b'0' ≡ c = omega arith in rw (e) (ground (arith, h))

digits_from-print_digits :
    (left n : ℕ) (after : Str)
    → n < bound left
    → digits_from 0 (print_digits left n after) ≡ digits_from n after
unfolding print_digits digits_from
digits_from-print_digits zero n after h =
    let e : n ≡ 0 = omega (arith, h) in ap (λ m. digits_from m after) (sym e)
digits_from-print_digits (suc left) n after h = elim (Bool-cases (ltb n 10)) [
  | inl e ↦
      rw (print_digits, e)
        (digits_from-digit 0 n after (ltb→lt n 10 e)
          ∙ (let at : 0 * 10 + n ≡ n = omega arith in ap (λ m. digits_from m after) at))
  | inr e ↦
      rw (print_digits, e)
        (digits_from-print_digits left (n / 10) ((b'0' + n % 10) ∷ after) (omega (arith, h))
          ∙ digits_from-digit (n / 10) (n % 10) after (omega arith)
          ∙ (let at : n / 10 * 10 + n % 10 ≡ n = omega arith in ap (λ m. digits_from m after) at))
]

print_digits-head :
    (left n : ℕ) (after : Str)
    → n < bound left
    → 0 < left
    → (c : ℕ) × (s : Str) × (print_digits left n after ≡ c ∷ s) × (48 ≤ c)
unfolding print_digits
print_digits-head zero n after h pos = absurd (omega arith)
print_digits-head (suc zero) n after h pos =
    (48 + n, after, rw (print_digits, lt→ltb n 10 (omega (arith, h))) refl, omega arith)
print_digits-head (suc (suc left)) n after h pos = elim (Bool-cases (ltb n 10)) [
  | inl e ↦ (48 + n, after, rw (print_digits, e) refl, omega arith)
  | inr e ↦
      let (c, s, at, big) =
        print_digits-head (suc left) (n / 10) ((b'0' + n % 10) ∷ after) (omega (arith, h))
          (omega arith) in
      (c, s, rw (print_digits, e) at, big)
]

digits-filled : (t : Str) (c : ℕ) (s : Str) → t ≡ c ∷ s → digits t ≡ digits_from 0 t
unfolding digits
digits-filled t c s e = rw e refl

-- The decimal text of a number of 20 digits at most.
pub digits-to_string : (n : ℕ) → n < bound 20 → digits (to_string n) ≡ some n
unfolding digits to_string
digits-to_string n h =
    let (c, s, at, big) = print_digits-head 20 n [] h (omega arith) in
    digits-filled (to_string n) c s at ∙ digits_from-print_digits 20 n [] h

-- The text does not begin with a sign.
pub unsigned-to_string : (n : ℕ) → n < bound 20 → strip_prefix (bytes "+") (to_string n) ≡ none
unfolding to_string strip_prefix
unsigned-to_string n h =
    let (c, s, at, big) = print_digits-head 20 n [] h (omega arith) in rw (at) (ground arith)
