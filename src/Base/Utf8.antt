-- ===== src/Base/Utf8.antt =====
-- `String::from_utf8_lossy`: the bytes that begin no character, or one that is cut short, become
-- U+FFFD, once for each longest prefix of a character.
use Prim.Native.Nat.{ℕ, ◌<◌}
use mathlib.Core.Path.{◌≡◌, refl, ap}
use mathlib.Core.Bool.{◌&&◌}
use mathlib.Core.List.{List, [], ◌∷◌, ◌++◌}
use mathlib.Core.Option.{Option, none, some}
use rust_ai_router.Base.Tests.{if◌then◌else◌, ◌==◌, leb, ltb, lt→ltb}
use rust_ai_router.Base.Text.{Str}

-- The least and the greatest byte allowed at each place that follows.
abbrev Ranges : Type 0
Ranges = List (ℕ × ℕ)

abbrev replacement : Str
replacement = 239 ∷ 191 ∷ 189 ∷ []

-- What follows the first byte of a character, unless no character begins with it.
unfoldable following : ℕ → Option Ranges
following c =
    let more : ℕ × ℕ = (128, 191) in
    if ltb c 128
    then some []
    else if leb 194 c && leb c 223
    then some (more ∷ [])
    else if c == 224
    then some ((160, 191) ∷ more ∷ [])
    else if c == 237
    then some ((128, 159) ∷ more ∷ [])
    else if leb 225 c && leb c 239
    then some (more ∷ more ∷ [])
    else if c == 240
    then some ((144, 191) ∷ more ∷ more ∷ [])
    else if c == 244
    then some ((128, 143) ∷ more ∷ more ∷ [])
    else if leb 241 c && leb c 243
    then some (more ∷ more ∷ more ∷ [])
    else none

-- The bytes put out, the bytes of the character that has begun, and what must follow.
abbrev Decoding : Type 0
Decoding = Str × Str × Ranges

unfoldable begin : ℕ → Decoding
unfolding following
begin c = elim (following c) [
  | none ↦ (replacement, [], [])
  | some [] ↦ (c ∷ [], [], [])
  | some (r ∷ due) ↦ ([], c ∷ [], r ∷ due)
]

unfoldable decode_byte : Str → Ranges → ℕ → Decoding
unfolding begin
decode_byte pending [] c = begin c
decode_byte pending ((lo, hi) ∷ due) c =
    let (out, next, after) = begin c in
    if leb lo c && leb c hi
    then elim due [
      | [] ↦ (pending ++ c ∷ [], [], [])
      | r ∷ rest ↦ ([], pending ++ c ∷ [], r ∷ rest)
    ]
    else (replacement ++ out, next, after)

unfoldable decode : Str → Ranges → Str → Str
unfolding decode_byte
decode pending [] [] = []
decode pending (r ∷ due) [] = replacement
decode pending due (c ∷ s) =
    let (out, next, after) = decode_byte pending due c in out ++ decode next after s

unfoldable pub from_utf8_lossy : Str → Str
unfolding decode
from_utf8_lossy s = decode [] [] s

abbrev pub Ascii : Str → Type 0
Ascii [] = Unit
Ascii (c ∷ s) = (c < 128) × Ascii s

begin-ascii : (c : ℕ) → c < 128 → begin c ≡ (c ∷ [], [], [])
unfolding begin following
begin-ascii c h = rw (begin, following, lt→ltb c 128 h) refl

-- ASCII is read as it stands.
pub from_utf8_lossy-Ascii : (s : Str) → Ascii s → from_utf8_lossy s ≡ s
unfolding from_utf8_lossy
from_utf8_lossy-Ascii [] h = refl
from_utf8_lossy-Ascii (c ∷ s) h =
    rw (from_utf8_lossy, decode, decode_byte, begin-ascii c h.0)
      (ap (λ r. c ∷ r) (from_utf8_lossy-Ascii s h.1))

-- Two characters of two and three bytes, a byte that begins none, and a character cut short.
lossy_valid : from_utf8_lossy (195 ∷ 169 ∷ 226 ∷ 130 ∷ 172 ∷ []) ≡ 195 ∷ 169 ∷ 226 ∷ 130 ∷ 172 ∷ []
unfolding from_utf8_lossy
lossy_valid = refl

lossy_invalid : from_utf8_lossy (255 ∷ 65 ∷ 226 ∷ 130 ∷ []) ≡ replacement ++ 65 ∷ replacement
unfolding from_utf8_lossy
lossy_invalid = refl
