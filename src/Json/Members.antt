-- ===== src/Json/Members.antt =====
-- The members of a JSON object, as `Value::get` reads them.
use rust_ai_router.Base.{◌≡◌, refl, some, Str, same, if◌then◌else◌}
use rust_ai_router.Base.Dict
use rust_ai_router.Base.Dict.{Dict, get-put, get-remove}
use rust_ai_router.Json.{Json, JsonLaws, member, assign}

module _ {V : Type 0} ⦃json : Json V⦄ where
  abbrev pub IsObject : V → Type 0
  IsObject v = (d : Dict V) × (json.as_object v ≡ some d)

module _ {V : Type 0} ⦃json : Json V⦄ (laws : JsonLaws V) where
  -- A made object holds its entries.
  pub member-object : (d : Dict V) (k : Str) → member (json.object d) k ≡ Dict.get d k
  member-object d k = rw (laws.as_object-object d) refl

  pub assign-IsObject : (v : V) (k : Str) (x : V) → IsObject v → IsObject (assign v k x)
  assign-IsObject v k x (d, e) = rw (assign, e) (_, laws.as_object-object _)

  pub member-assign :
      (v : V) (k j : Str) (x : V)
      → IsObject v
      → member (assign v k x) j ≡ (if same k j then some x else member v j)
  member-assign v k j x (d, e) =
      rw (assign, e, laws.as_object-object (Dict.put d k x)) (get-put d k j x)
