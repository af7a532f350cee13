-- ===== src/Base/Text.antt =====
-- A Rust `String` is the list of its UTF-8 bytes: `len`, slices and searches count bytes.
use Prim.Native.Nat.{ℕ, zero, suc, ◌+◌, ◌-◌, ◌*◌, ◌/◌, ◌%◌, ◌^◌}
use Prim.Native.Char.{code}
use Prim.Native.String.{String}
use mathlib.Core.Path.{◌≡◌, refl}
use mathlib.Core.Logic.{◌↔◌}
use mathlib.Core.Bool.{Bool, true, false, ◌&&◌, ◌||◌}
use mathlib.Core.List.{List, [], ◌∷◌, ◌++◌, map, reverse}
use mathlib.Core.Option.{Option, none, some}
use native.Mathlib.Omega.{arith}
use rust_ai_router.Base.Tests.{if◌then◌else◌, ◌==◌, leb, ltb}
use rust_ai_router.Base.Lists.{any}

abbrev pub Str : Type 0
Str = List ℕ

-- The bytes of an ASCII literal.
abbrev pub bytes : String → Str
bytes String.[] = []
bytes (String.◌∷◌ c s) = code c ∷ bytes s

-- `a == b` on strings
unfoldable pub same : Str → Str → Bool
same [] [] = true
same [] (y ∷ ys) = false
same (x ∷ xs) [] = false
same (x ∷ xs) (y ∷ ys) = x == y && same xs ys

pub same-to-eq : (a b : Str) → same a b ≡ true → a ≡ b
unfolding same
same-to-eq [] [] h = refl
same-to-eq [] (y ∷ ys) h = ground arith
same-to-eq (x ∷ xs) [] h = ground arith
same-to-eq (x ∷ xs) (y ∷ ys) h = ground (arith, same-to-eq xs ys)

pub same_refl : (a : Str) → same a a ≡ true
unfolding same
same_refl [] = refl
same_refl (x ∷ xs) = ground (arith, same_refl xs)

pub same_iff : (a b : Str) → (same a b ≡ true) ↔ (a ≡ b)
same_iff a b = (same-to-eq a b, λ e. rw e (same_refl b))

-- `set.contains(k)` on a `HashSet<String>`, held as the list of its elements.
abbrev pub contains : List Str → Str → Bool
contains xs k = any (λ x. same x k) xs

-- `s.strip_prefix(p)`
unfoldable pub strip_prefix : Str → Str → Option Str
strip_prefix [] s = some s
strip_prefix (c ∷ p) [] = none
strip_prefix (c ∷ p) (d ∷ s) = if c == d then strip_prefix p s else none

pub strip_prefix-append : (p s : Str) → strip_prefix p (p ++ s) ≡ some s
unfolding strip_prefix
strip_prefix-append [] s = refl
strip_prefix-append (c ∷ p) s = ground (arith, strip_prefix-append p s)

pub strip_prefix-some : (p s r : Str) → strip_prefix p s ≡ some r → s ≡ p ++ r
unfolding strip_prefix
strip_prefix-some [] s r h = ground arith
strip_prefix-some (c ∷ p) [] r h = ground arith
strip_prefix-some (c ∷ p) (d ∷ s) r h = ground (arith, strip_prefix-some p s r)

-- `s.strip_suffix(p)`
unfoldable pub strip_suffix : Str → Str → Option Str
unfolding strip_prefix
strip_suffix p s = elim (strip_prefix (reverse p) (reverse s)) [
  | none ↦ none
  | some r ↦ some (reverse r)
]

-- `s.trim()`, over ASCII: the white space is the space and the bytes 9 to 13.
abbrev pub is_space : ℕ → Bool
is_space c = c == 32 || (leb 9 c && leb c 13)

unfoldable pub trim_start : Str → Str
trim_start [] = []
trim_start (c ∷ s) = if is_space c then trim_start s else c ∷ s

unfoldable pub trim : Str → Str
unfolding trim_start
trim s = reverse (trim_start (reverse (trim_start s)))

-- `s.starts_with(p)`, `s.find(p)` and `s.contains(p)`
unfoldable pub starts_with : Str → Str → Bool
unfolding strip_prefix
starts_with s p = elim (strip_prefix p s) [ none ↦ false | some r ↦ true ]

unfoldable pub find_str : Str → Str → Option ℕ
unfolding starts_with
find_str [] p = if starts_with [] p then some 0 else none
find_str (c ∷ s) p =
    if starts_with (c ∷ s) p
    then some 0
    else elim (find_str s p) [ none ↦ none | some i ↦ some (suc i) ]

unfoldable pub contains_str : Str → Str → Bool
unfolding find_str
contains_str s p = elim (find_str s p) [ none ↦ false | some i ↦ true ]

-- `s.trim_start_matches(c)` and `s.trim_end_matches(c)`
unfoldable pub trim_start_matches : ℕ → Str → Str
trim_start_matches c [] = []
trim_start_matches c (d ∷ s) = if d == c then trim_start_matches c s else d ∷ s

unfoldable pub trim_end_matches : ℕ → Str → Str
unfolding trim_start_matches
trim_end_matches c s = reverse (trim_start_matches c (reverse s))

-- `u8::to_ascii_lowercase`
abbrev pub to_lower : ℕ → ℕ
to_lower c = if leb b'A' c && leb c b'Z' then c + 32 else c

-- `a.eq_ignore_ascii_case(b)`
unfoldable pub eq_ignore_ascii_case : Str → Str → Bool
unfolding same
eq_ignore_ascii_case a b = same (map to_lower a) (map to_lower b)

-- The digits of a number after `acc`; `none` at a byte that is no digit.
unfoldable pub digits_from : ℕ → Str → Option ℕ
digits_from acc [] = some acc
digits_from acc (c ∷ s) =
    let rest = digits_from (acc * 10 + (c - b'0')) s in
    if leb b'0' c && leb c b'9' then rest else none

unfoldable pub digits : Str → Option ℕ
unfolding digits_from
digits [] = none
digits (c ∷ s) = digits_from 0 (c ∷ s)

-- `s.parse::<u16>()`: digits, one `+` before them allowed, below 2^16.
unfoldable pub parse_u16 : Str → Option ℕ
unfolding digits strip_prefix
parse_u16 s = elim (digits (elim (strip_prefix (bytes "+") s) [ none ↦ s | some r ↦ r ])) [
  | none ↦ none
  | some n ↦ if ltb n (2 ^ 16) then some n else none
]

-- `n.to_string()`: at most 20 digits, since a `usize` has 64 bits.
unfoldable pub print_digits : ℕ → ℕ → Str → Str
print_digits zero n after = after
print_digits (suc left) n after =
    let more = print_digits left (n / 10) ((b'0' + n % 10) ∷ after) in
    if ltb n 10 then (b'0' + n) ∷ after else more

unfoldable pub to_string : ℕ → Str
unfolding print_digits
to_string n = print_digits 20 n []
