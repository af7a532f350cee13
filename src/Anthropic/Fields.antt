-- ===== src/Anthropic/Fields.antt =====
-- src/proxy/anthropic.rs: copying members of a request.
use rust_ai_router.Anthropic.{copy_field, copy_fields}
use rust_ai_router.Base.{
  ◌≡◌, refl, ◌∙◌, true, false, none, List, [], ◌∷◌, Str, same, same_refl, same_iff, contains, arith,
  Bool-cases, Option-cases, inl, inr,
}
use rust_ai_router.Json.Members.{IsObject, assign-IsObject, member-assign}
use rust_ai_router.Json.{Json, JsonLaws, member}

module _ {V : Type 0} ⦃json : Json V⦄ (laws : JsonLaws V) where
  -- A copied member, and the others.
  pub copy_field-IsObject :
      (body v : V) (from to : Str) → IsObject v → IsObject (copy_field body v from to)
  unfolding copy_field
  copy_field-IsObject body v from to h = elim (Option-cases (member body from)) [
    | inl e ↦ rw (copy_field, e) h
    | inr (x, e) ↦ rw (copy_field, e) (assign-IsObject laws v to x h)
  ]

  pub member-copy_field :
      (body v : V) (from to : Str)
      → IsObject v
      → (member body from ≡ none → member v to ≡ none)
      → member (copy_field body v from to) to ≡ member body from
  unfolding copy_field
  member-copy_field body v from to h absent = elim (Option-cases (member body from)) [
    | inl e ↦ rw (copy_field, e) (absent e)
    | inr (x, e) ↦ rw (copy_field, e, member-assign laws v to to x h, same_refl to) refl
  ]

  pub member-copy_field-other :
      (body v : V) (from to k : Str)
      → IsObject v
      → same to k ≡ false
      → member (copy_field body v from to) k ≡ member v k
  unfolding copy_field
  member-copy_field-other body v from to k h other = elim (Option-cases (member body from)) [
    | inl e ↦ rw (copy_field, e) refl
    | inr (x, e) ↦ rw (copy_field, e, member-assign laws v to k x h, other) refl
  ]

  -- Copying a member leaves absent what is absent.
  copied-or-absent :
      (body v : V) (f k : Str)
      → IsObject v
      → (member body k ≡ none → member v k ≡ none)
      → member body k ≡ none
      → member (copy_field body v f f) k ≡ none
  copied-or-absent body v f k h absent none_there = elim (Bool-cases (same f k)) [
    | inl e ↦
        let f-is : f ≡ k = (same_iff f k).0 e in
        rw f-is (member-copy_field body v k k h absent ∙ none_there)
    | inr e ↦ member-copy_field-other body v f f k h e ∙ absent none_there
  ]

  pub copy_fields-IsObject :
      (body v : V) (fs : List Str) → IsObject v → IsObject (copy_fields body v fs)
  unfolding copy_fields
  copy_fields-IsObject body v [] h = h
  copy_fields-IsObject body v (f ∷ fs) h =
      copy_fields-IsObject body (copy_field body v f f) fs (copy_field-IsObject body v f f h)

  pub member-copy_fields-other :
      (body v : V) (fs : List Str) (k : Str)
      → IsObject v
      → contains fs k ≡ false
      → member (copy_fields body v fs) k ≡ member v k
  unfolding copy_fields
  member-copy_fields-other body v [] k h out = refl
  member-copy_fields-other body v (f ∷ fs) k h out =
      let e : same f k ≡ false = ground arith in
      member-copy_fields-other body (copy_field body v f f) fs k (copy_field-IsObject body v f f h)
        (ground arith)
      ∙ member-copy_field-other body v f f k h e

  pub member-copy_fields :
      (body v : V) (fs : List Str) (k : Str)
      → IsObject v
      → contains fs k ≡ true
      → (member body k ≡ none → member v k ≡ none)
      → member (copy_fields body v fs) k ≡ member body k
  unfolding copy_fields
  member-copy_fields body v [] k h inside absent = absurd (ground arith)
  member-copy_fields body v (f ∷ fs) k h inside absent =
      let v' = copy_field body v f f in
      let h' = copy_field-IsObject body v f f h in
      elim (Bool-cases (contains fs k)) [
        | inl later ↦
            member-copy_fields body v' fs k h' later (copied-or-absent body v f k h absent)
        | inr never ↦
            let e : same f k ≡ true = ground arith in
            let f-is : f ≡ k = (same_iff f k).0 e in
            member-copy_fields-other body v' fs k h' never
            ∙ rw f-is (member-copy_field body v k k h absent)
      ]
