-- ===== src/Anthropic/Request.antt =====
-- src/proxy/anthropic.rs: what a translated request holds, member by member.
use rust_ai_router.Anthropic.{copied_fields, model_of, copy_field, copy_fields, translate_request}
use rust_ai_router.Anthropic.Fields.{
  copy_field-IsObject, member-copy_field, member-copy_field-other, copy_fields-IsObject,
  member-copy_fields-other, member-copy_fields,
}
use rust_ai_router.Base.{
  ◌≡◌, refl, sym, ◌∙◌, false, Option, none, some, Str, bytes, same, same_iff, contains,
  if◌then◌else◌, Bool-cases, inl, inr,
}
use rust_ai_router.Json.{Json, JsonLaws, member}
use rust_ai_router.Json.Members.{IsObject, assign-IsObject, member-assign}
use rust_ai_router.Anthropic.Messages.{translated_messages, with_messages, with_messages-Holds}

module _ {V : Type 0} ⦃json : Json V⦄ where
  -- The members of the translation.
  unfoldable pub translated_member : V → Str → Option V
  translated_member body k =
      if same (bytes "__anthropic_request") k
      then some body
      else if same (bytes "stop") k
      then member body (bytes "stop_sequences")
      else if same (bytes "messages") k
      then some (json.array (translated_messages body))
      else if same (bytes "model") k
      then some (json.string (model_of body))
      else if contains copied_fields k
      then member body k
      else none

  -- Behind the copied fields, before the original request is put in.
  abbrev copied : V → V
  copied body = copy_fields body (with_messages body) copied_fields

  abbrev stopped : V → V
  stopped body = copy_field body (copied body) (bytes "stop_sequences") (bytes "stop")

module _ {V : Type 0} ⦃json : Json V⦄ (laws : JsonLaws V) where
  copied-IsObject : (body : V) → IsObject (copied body)
  copied-IsObject body =
      copy_fields-IsObject laws body (with_messages body) copied_fields
        (with_messages-Holds laws body).is_object

  member-copied-others :
      (body : V) (k : Str)
      → contains copied_fields k ≡ false
      → member (copied body) k ≡ member (with_messages body) k
  member-copied-others body k out =
      member-copy_fields-other laws body (with_messages body) copied_fields k
        (with_messages-Holds laws body).is_object out

  member-translated :
      (body : V) (k : Str)
      → member (translate_request body).0 k
        ≡ (if same (bytes "__anthropic_request") k then some body else member (stopped body) k)
  unfolding translate_request
  member-translated body k =
      member-assign laws (stopped body) (bytes "__anthropic_request") k body (
        copy_field-IsObject laws body (copied body) (bytes "stop_sequences") (bytes "stop")
          (copied-IsObject body))

  -- The members that no field is copied to.
  member-stopped-stop :
      (body : V) → member (stopped body) (bytes "stop") ≡ member body (bytes "stop_sequences")
  unfolding same
  member-stopped-stop body =
      member-copy_field laws body (copied body) (bytes "stop_sequences") (bytes "stop")
        (copied-IsObject body)
        (λ _.
          member-copied-others body (bytes "stop") refl
          ∙ (with_messages-Holds laws body).others (bytes "stop") refl)

  member-stopped-others :
      (body : V) (k : Str)
      → same (bytes "stop") k ≡ false
      → member (stopped body) k ≡ member (copied body) k
  member-stopped-others body k e =
      member-copy_field-other laws body (copied body) (bytes "stop_sequences") (bytes "stop") k
        (copied-IsObject body) e

  member-stopped-messages :
      (body : V)
      → member (stopped body) (bytes "messages") ≡ some (json.array (translated_messages body))
  unfolding same
  member-stopped-messages body =
      member-stopped-others body (bytes "messages") refl
      ∙ member-copied-others body (bytes "messages") refl
      ∙ (with_messages-Holds laws body).all_messages

  member-stopped-model :
      (body : V) → member (stopped body) (bytes "model") ≡ some (json.string (model_of body))
  unfolding same
  member-stopped-model body =
      member-stopped-others body (bytes "model") refl
      ∙ member-copied-others body (bytes "model") refl
      ∙ (with_messages-Holds laws body).others (bytes "model") refl

  member-stopped-field :
      (body : V) (k : Str)
      → same (bytes "stop") k ≡ false
      → same (bytes "messages") k ≡ false
      → same (bytes "model") k ≡ false
      → member (stopped body) k ≡ (if contains copied_fields k then member body k else none)
  member-stopped-field body k not_stop not_messages not_model =
      let h = with_messages-Holds laws body in
      let absent : member (with_messages body) k ≡ none =
        h.others k not_messages ∙ rw not_model refl in
      member-stopped-others body k not_stop ∙ elim (Bool-cases (contains copied_fields k)) [
        | inl e ↦ rw e (
            member-copy_fields laws body (with_messages body) copied_fields k h.is_object e
              (λ _. absent))
        | inr e ↦ rw e (member-copied-others body k e ∙ absent)
      ]

  -- A translated request holds the model, the system's text and the messages in their order, the
  -- four copied fields, the stop sequences as `stop`, the original request, and no other member.
  pub member-translate_request :
      (body : V) (k : Str) → member (translate_request body).0 k ≡ translated_member body k
  unfolding translated_member
  member-translate_request body k =
      member-translated body k ∙ elim (Bool-cases (same (bytes "__anthropic_request") k)) [
        | inl e ↦ rw e refl
        | inr other ↦ elim (Bool-cases (same (bytes "stop") k)) [
          | inl e ↦
              rw (other, e)
                (let at : bytes "stop" ≡ k = (same_iff _ k).0 e in
                  rw (sym at) (member-stopped-stop body))
          | inr not_stop ↦ elim (Bool-cases (same (bytes "messages") k)) [
            | inl e ↦
                rw (other, not_stop, e)
                  (let at : bytes "messages" ≡ k = (same_iff _ k).0 e in
                    rw (sym at) (member-stopped-messages body))
            | inr not_messages ↦ elim (Bool-cases (same (bytes "model") k)) [
              | inl e ↦
                  rw (other, not_stop, not_messages, e)
                    (let at : bytes "model" ≡ k = (same_iff _ k).0 e in
                      rw (sym at) (member-stopped-model body))
              | inr not_model ↦
                  rw (other, not_stop, not_messages, not_model)
                    (member-stopped-field body k not_stop not_messages not_model)
            ]
          ]
        ]
      ]

  pub translate_request-IsObject : (body : V) → IsObject (translate_request body).0
  unfolding translate_request
  translate_request-IsObject body =
      assign-IsObject laws (stopped body) (bytes "__anthropic_request") body (
        copy_field-IsObject laws body (copied body) (bytes "stop_sequences") (bytes "stop")
          (copied-IsObject body))
