-- ===== src/Base.antt =====
-- The names that the modules share: the libraries', passed on, and those of the children.
mod Tests
mod Lists
mod Text
mod Utf8
mod Decimal
pub mod Dict
mod Machine
pub mod Int
pub mod Cycle
pub use Tests.{
  ltb, leb, ◌==◌, if◌then◌else◌, ltb→lt, lt→ltb, leb→le, le→leb, ==_iff, tests, Bool-cases,
  Option-cases, or-eq-true,
}
pub use Lists.*
pub use Text.{
  Str, bytes, same-to-eq, same_refl, same_iff, contains, strip_prefix-append, strip_prefix-some,
}
unfoldable pub use Text.{
  same, strip_prefix, strip_suffix, trim, starts_with, find_str, contains_str, trim_start_matches,
  trim_end_matches, eq_ignore_ascii_case, digits_from, digits, parse_u16, to_string,
}
pub use Decimal.{bound, digits-to_string, unsigned-to_string}
pub use Utf8.{Ascii, from_utf8_lossy-Ascii}
unfoldable pub use Utf8.{from_utf8_lossy}
pub use Machine.{Float}
pub use Prim.Native.Nat.{ℕ, zero, suc, ◌+◌, ◌-◌, ◌*◌, ◌/◌, ◌%◌, ◌^◌, ◌≤◌, ◌<◌, min, max}
pub use mathlib.Core.Path.{◌≡◌, refl, sym, ap, ◌∙◌}
pub use mathlib.Core.Logic.{◌≢◌, ◌↔◌, ◌⊎◌, inl, inr}
pub use mathlib.Core.Bool.{Bool, true, false, not, ◌&&◌, ◌||◌}
pub use mathlib.Core.Option.{Option, none, some}
pub use mathlib.Core.List.{List, [], ◌∷◌, ◌++◌, map}
pub use native.Mathlib.Omega.{arith}

-- Moduli of the machine words, `usize` being 64 bits wide.
abbrev pub u32_mod : ℕ
u32_mod = 2 ^ 32

abbrev pub u64_mod : ℕ
u64_mod = 2 ^ 64

-- An `Instant` and a `Duration` are numbers of nanoseconds, and the clock is an argument. A
-- difference of instants stops at 0, as `duration_since` and `elapsed` do.
abbrev pub from_secs : ℕ → ℕ
from_secs n = n * 1_000_000_000

abbrev pub as_secs : ℕ → ℕ
as_secs ns = ns / 1_000_000_000

abbrev pub as_millis : ℕ → ℕ
as_millis ns = ns / 1_000_000

module _ {ℓ κ} {A : Type ℓ} {B : Type κ} where
  -- `o.map(f).unwrap_or(d)`
  abbrev pub map_or : B → (A → B) → Option A → B
  map_or d f none = d
  map_or d f (some a) = f a

  -- `o.and_then(f)`
  abbrev pub and_then : Option A → (A → Option B) → Option B
  and_then none f = none
  and_then (some a) f = f a

  -- The `?` operator on an `Option`, in `do` blocks.
  infixl 5 ◌>>=◌
  abbrev pub ◌>>=◌ : Option A → (A → Option B) → Option B
  none >>= f = none
  some a >>= f = f a

  -- `o.map(f)`
  abbrev pub map_opt : (A → B) → Option A → Option B
  map_opt f none = none
  map_opt f (some a) = some (f a)

module _ {ℓ} {A : Type ℓ} where
  -- `o.unwrap_or(d)`
  abbrev pub get_or : Option A → A → A
  get_or none d = d
  get_or (some a) d = a

  -- `a.or(b)`, `a.or_else(|| b)`
  abbrev pub or_else : Option A → Option A → Option A
  or_else none b = b
  or_else (some a) b = some a

  abbrev pub is_some : Option A → Bool
  is_some none = false
  is_some (some a) = true
