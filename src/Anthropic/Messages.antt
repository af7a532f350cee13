-- ===== src/Anthropic/Messages.antt =====
-- src/proxy/anthropic.rs: the messages of a translated request.
use rust_ai_router.Anthropic.{
  model_of, role_message, push_message, translate_message, push_messages, bare_request,
}
use rust_ai_router.Base.{
  ◌≡◌, refl, sym, ◌∙◌, false, none, some, List, [], ◌∷◌, ◌++◌, Str, bytes, same, map, and_then,
  get_or, if◌then◌else◌, Option-cases, inl, inr,
}
use rust_ai_router.Base.Dict
use rust_ai_router.Base.Dict.{Dict}
use rust_ai_router.Json.{Json, JsonLaws, member, str_member}
use rust_ai_router.Json.Members.{IsObject, assign-IsObject, member-assign, member-object}
use mathlib.Core.List.{append-nil, append_assoc}

module _ {V : Type 0} ⦃json : Json V⦄ where
  -- The messages of the translation: the system's text first, then each message in its place.
  abbrev system_messages : V → List V
  system_messages body = elim (str_member body (bytes "system")) [
    | none ↦ []
    | some system ↦ role_message (bytes "system") (json.string system) ∷ []
  ]

  abbrev pub translated_messages : V → List V
  translated_messages body =
      system_messages body
      ++ map translate_message (get_or (and_then (member body (bytes "messages")) json.as_array) [])

  abbrev with_system : V → V
  with_system body = elim (str_member body (bytes "system")) [
    | none ↦ bare_request (model_of body)
    | some system ↦
        push_message (bare_request (model_of body))
          (role_message (bytes "system") (json.string system))
  ]

  abbrev pub with_messages : V → V
  with_messages body = elim (and_then (member body (bytes "messages")) json.as_array) [
    | none ↦ with_system body
    | some messages ↦ push_messages (with_system body) messages
  ]

module _ {V : Type 0} ⦃json : Json V⦄ (laws : JsonLaws V) where
  -- A request under construction: its messages so far, and nothing else but its model.
  pub record Holds (model : Str) (messages : List V) (v : V) : Type 0 where
    pub is_object : IsObject v
    pub all_messages : member v (bytes "messages") ≡ some (json.array messages)
    pub others :
        (k : Str)
        → same (bytes "messages") k ≡ false
        → member v k ≡ (if same (bytes "model") k then some (json.string model) else none)

  bare-Holds : (model : Str) → Holds model [] (bare_request model)
  unfolding bare_request same Dict.get
  bare-Holds model = record {
    is_object = (_, laws.as_object-object _);
    all_messages = member-object laws _ (bytes "messages");
    others = λ k e. member-object laws _ k ∙ rw e refl;
  }

  push-Holds :
      (model : Str) (ms : List V) (v message : V)
      → Holds model ms v
      → Holds model (ms ++ message ∷ []) (push_message v message)
  unfolding push_message same
  push-Holds model ms v message h =
      rw (push_message, h.all_messages, laws.as_array-array ms)
        (record {
          is_object = assign-IsObject laws v (bytes "messages") _ h.is_object;
          all_messages = member-assign laws v (bytes "messages") (bytes "messages") _ h.is_object;
          others =
              λ k e. member-assign laws v (bytes "messages") k _ h.is_object ∙ rw e (h.others k e);
        })

  push_all-Holds :
      (model : Str) (ms : List V) (v : V) (added : List V)
      → Holds model ms v
      → Holds model (ms ++ map translate_message added) (push_messages v added)
  unfolding push_messages
  push_all-Holds model ms v [] h = rw (append-nil ms) h
  push_all-Holds model ms v (m ∷ added) h =
      let next =
        push_all-Holds model (ms ++ translate_message m ∷ []) (push_message v (translate_message m))
          added (push-Holds model ms v (translate_message m) h) in
      rw (sym (append_assoc ms (translate_message m ∷ []) (map translate_message added))) next

  with_system-Holds : (body : V) → Holds (model_of body) (system_messages body) (with_system body)
  with_system-Holds body = elim (Option-cases (str_member body (bytes "system"))) [
    | inl e ↦ rw (with_system, system_messages, e) (bare-Holds (model_of body))
    | inr (system, e) ↦
        rw (with_system, system_messages, e)
          (push-Holds (model_of body) [] (bare_request (model_of body))
            (role_message (bytes "system") (json.string system)) (bare-Holds (model_of body)))
  ]

  pub with_messages-Holds :
      (body : V) → Holds (model_of body) (translated_messages body) (with_messages body)
  with_messages-Holds body =
      let h = with_system-Holds body in
      elim (Option-cases (and_then (member body (bytes "messages")) json.as_array)) [
        | inl e ↦ rw (with_messages, translated_messages, e, append-nil (system_messages body)) h
        | inr (messages, e) ↦
            rw (with_messages, translated_messages, e)
              (push_all-Holds (model_of body) (system_messages body) (with_system body) messages h)
      ]
