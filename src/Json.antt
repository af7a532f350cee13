-- ===== src/Json.antt =====
-- The crate serde_json, as the program uses it: a value is made, read, parsed and printed. What the
-- crate documents of these operations is stated in `JsonLaws`. An object is a map without order.
pub mod Members
use rust_ai_router.Base.{
  ℕ, ◌<◌, u64_mod, ◌≡◌, Bool, Option, none, some, List, Str, and_then, from_utf8_lossy, map, map_or,
  if◌then◌else◌, [], ◌∷◌,
}
use rust_ai_router.Base.Dict
use rust_ai_router.Base.Dict.{Dict}

pub record Json (V : Type 0) : Type 0 where
  pub null : V
  pub number : ℕ → V
  pub string : Str → V
  pub array : List V → V
  pub object : Dict V → V
  pub is_null : V → Bool
  -- `Value::as_bool`, `as_u64`, `as_str`, `as_array`, `as_object`
  pub as_bool : V → Option Bool
  pub as_u64 : V → Option ℕ
  pub as_str : V → Option Str
  pub as_array : V → Option (List V)
  pub as_object : V → Option (Dict V)
  -- `serde_json::from_slice(..).ok()` and `serde_json::to_vec`
  pub from_slice : Str → Option V
  pub to_vec : V → Str

-- Printing and parsing gives the value back. This does not hold of all values: floats may be rounded,
-- and a value of more than 127 levels is not parsed.
abbrev pub Reprints : {V : Type 0} → ⦃json : Json V⦄ → V → Type 0
Reprints ⦃json = json⦄ v = json.from_slice (json.to_vec v) ≡ some v

-- An object of texts and nulls.
abbrev pub texts : {V : Type 0} → ⦃json : Json V⦄ → Dict (Option Str) → V
texts ⦃json = json⦄ d = json.object (map (λ e. (e.0, map_or json.null json.string e.1)) d)

-- What is made is read back, a number of 64 bits at most; what is printed is UTF-8, and is parsed
-- where it holds nothing but texts and nulls, on two levels; and nothing is no value.
pub record JsonLaws (V : Type 0) ⦃json : Json V⦄ : Type 0 where
  pub as_str-string : (s : Str) → json.as_str (json.string s) ≡ some s
  pub as_u64-number : (n : ℕ) → n < u64_mod → json.as_u64 (json.number n) ≡ some n
  pub as_array-array : (vs : List V) → json.as_array (json.array vs) ≡ some vs
  pub as_object-object : (d : Dict V) → json.as_object (json.object d) ≡ some d
  pub as_object-array : (vs : List V) → json.as_object (json.array vs) ≡ none
  pub from_slice-to_vec :
      (k : Str) (d : Dict (Option Str)) → Reprints (json.object ((k, texts d) ∷ []))
  pub from_utf8_lossy-to_vec : (v : V) → from_utf8_lossy (json.to_vec v) ≡ json.to_vec v
  pub from_slice-nil : json.from_slice [] ≡ none

module _ {V : Type 0} ⦃json : Json V⦄ where
  -- `value.get(key)`
  abbrev pub member : V → Str → Option V
  member v k = and_then (json.as_object v) (λ d. Dict.get d k)

  -- `value[key] = x`: a null becomes an object, and what is no object would panic: here it stays.
  abbrev pub assign : V → Str → V → V
  assign v k x = elim (json.as_object v) [
    | none ↦ if json.is_null v then json.object ((k, x) ∷ []) else v
    | some d ↦ json.object (Dict.put d k x)
  ]

  -- `value.get(key).and_then(|v| v.as_str())`, and the like
  abbrev pub str_member : V → Str → Option Str
  str_member v k = and_then (member v k) json.as_str

  abbrev pub u64_member : V → Str → Option ℕ
  u64_member v k = and_then (member v k) json.as_u64
