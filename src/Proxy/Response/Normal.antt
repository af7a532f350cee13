-- ===== src/Proxy/Response/Normal.antt =====
-- src/proxy/handler.rs: what `normalize_openai_response` leaves of a response, member by member.
use rust_ai_router.Base.{
  ◌≡◌, refl, sym, ◌∙◌, Bool, true, false, Option, none, some, List, [], ◌∷◌, Str, bytes, same,
  same_refl, same_iff, map, contains, map_opt, if◌then◌else◌, arith, Bool-cases, Option-cases, inl,
  inr,
}
use rust_ai_router.Base.Dict
use rust_ai_router.Base.Dict.{Dict, get-put, get-remove}
use rust_ai_router.Json.{Json, JsonLaws, member}
use rust_ai_router.Json.Members.{IsObject}
use rust_ai_router.Proxy.Response.{
  extra_fields, extra_choice_fields, remove_all, normalize_message, normalize_choice,
  normalize_choices, normalize_openai_response, usage_tokens,
}

module _ {V : Type 0} where
  get-remove_all :
      (d : Dict V) (ks : List Str) (k : Str)
      → Dict.get (remove_all d ks) k ≡ (if contains ks k then none else Dict.get d k)
  unfolding remove_all
  get-remove_all d [] k = refl
  get-remove_all d (j ∷ ks) k =
      get-remove_all (Dict.remove d j) ks k ∙ ground (arith, get-remove d j k)

module _ {V : Type 0} where
  -- A member that is changed where it is there: it is absent, it stays, or it is another.
  if-same_absent :
      (key k : Str) (d : Dict V) (f : V → V)
      → Dict.get d key ≡ none
      → (if same key k then map_opt f (Dict.get d k) else Dict.get d k) ≡ Dict.get d k
  if-same_absent key k d f absent = elim (Bool-cases (same key k)) [
    | inl e ↦ let at : key ≡ k = (same_iff key k).0 e in rw (← at, same_refl key, absent) refl
    | inr e ↦ rw e refl
  ]

  pub if-same_changed :
      (key k : Str) (d : Dict V) (v w : V) (f : V → V)
      → Dict.get d key ≡ some v
      → f v ≡ w
      → (if same key k then map_opt f (Dict.get d k) else Dict.get d k)
        ≡ (if same key k then some w else Dict.get d k)
  if-same_changed key k d v w f there e = elim (Bool-cases (same key k)) [
    | inl e' ↦ let at : key ≡ k = (same_iff key k).0 e' in rw (← at, same_refl key, there, e) refl
    | inr e' ↦ rw e' refl
  ]

  if-same_there :
      (key k : Str) (d : Dict V) (v : V) (f : V → V)
      → Dict.get d key ≡ some v
      → f v ≡ v
      → (if same key k then map_opt f (Dict.get d k) else Dict.get d k) ≡ Dict.get d k
  if-same_there key k d v f there e = elim (Bool-cases (same key k)) [
    | inl e' ↦ let at : key ≡ k = (same_iff key k).0 e' in rw (← at, same_refl key, there, e) refl
    | inr e' ↦ rw e' refl
  ]

module _ {V : Type 0} ⦃json : Json V⦄ where
  -- The choices, normalised one by one where they are an array.
  unfoldable pub normal_choices : V → V
  normal_choices choices = elim (json.as_array choices) [
    | none ↦ choices
    | some cs ↦ json.array (map normalize_choice cs)
  ]

  -- A message without the field outside the format.
  unfoldable pub normal_message : V → V
  normal_message message = elim (json.as_object message) [
    | none ↦ message
    | some msg ↦ json.object (Dict.remove msg (bytes "provider_specific_fields"))
  ]

module _ {V : Type 0} ⦃json : Json V⦄ (laws : JsonLaws V) where
  get-normalize_choices :
      (d : Dict V) (k : Str)
      → Dict.get (normalize_choices d) k
        ≡ (if same (bytes "choices") k then map_opt normal_choices (Dict.get d k) else Dict.get d k)
  unfolding normalize_choices normal_choices
  get-normalize_choices d k = elim (Option-cases (Dict.get d (bytes "choices"))) [
    | inl absent ↦
        rw (normalize_choices, absent)
          (sym (if-same_absent (bytes "choices") k d normal_choices absent))
    | inr (c, there) ↦ elim (Option-cases (json.as_array c)) [
      | inl e ↦
          rw (normalize_choices, there, e)
            (sym (
              if-same_there (bytes "choices") k d c normal_choices there
                (rw (normal_choices, e) refl)))
      | inr (cs, e) ↦
          let new = json.array (map normalize_choice cs) in
          rw (normalize_choices, there, e)
            (get-put d (bytes "choices") k new
              ∙ sym (
                  if-same_changed (bytes "choices") k d c new normal_choices there
                    (rw (normal_choices, e) refl)))
    ]
  ]

  get-normalize_message :
      (d : Dict V) (k : Str)
      → Dict.get (normalize_message d) k
        ≡ (if same (bytes "message") k then map_opt normal_message (Dict.get d k) else Dict.get d k)
  unfolding normalize_message normal_message
  get-normalize_message d k = elim (Option-cases (Dict.get d (bytes "message"))) [
    | inl absent ↦
        rw (normalize_message, absent)
          (sym (if-same_absent (bytes "message") k d normal_message absent))
    | inr (m, there) ↦ elim (Option-cases (json.as_object m)) [
      | inl e ↦
          rw (normalize_message, there, e)
            (sym (
              if-same_there (bytes "message") k d m normal_message there
                (rw (normal_message, e) refl)))
      | inr (msg, e) ↦
          let new = json.object (Dict.remove msg (bytes "provider_specific_fields")) in
          rw (normalize_message, there, e)
            (get-put d (bytes "message") k new
              ∙ sym (
                  if-same_changed (bytes "message") k d m new normal_message there
                    (rw (normal_message, e) refl)))
    ]
  ]

  -- The tests on the name of a member, in the order in which the theorems ask them.
  if-removed :
      (removed here : Bool) (f : V → V) (o : Option V)
      → (if here then map_opt f (if removed then none else o) else if removed then none else o)
        ≡ (if removed then none else if here then map_opt f o else o)
  if-removed true true f o = refl
  if-removed true false f o = refl
  if-removed false true f o = refl
  if-removed false false f o = refl

  if-named :
      (k name : Str) (d : Dict V)
      → (let o =
            if contains extra_fields k
            then none
            else if same (bytes "model") k
            then some (json.string name)
            else Dict.get d k in
          if same (bytes "choices") k then map_opt normal_choices o else o)
        ≡ (if contains extra_fields k
            then none
            else if same (bytes "model") k
            then some (json.string name)
            else if same (bytes "choices") k
            then map_opt normal_choices (Dict.get d k)
            else Dict.get d k)
  unfolding same
  if-named k name d = elim (Bool-cases (same (bytes "choices") k)) [
    | inl e ↦ let at : bytes "choices" ≡ k = (same_iff _ k).0 e in rw (← at) refl
    | inr e ↦ rw e refl
  ]

  -- A choice that is an object keeps its members but the three outside the format, with a message
  -- made normal.
  pub member-normalize_choice :
      (choice : V) (k : Str)
      → IsObject choice
      → member (normalize_choice choice) k ≡ (
          if contains extra_choice_fields k
          then none
          else if same (bytes "message") k
          then map_opt normal_message (member choice k)
          else member choice k)
  unfolding normalize_choice same
  member-normalize_choice choice k (d, e) =
      rw
        (
          normalize_choice,
          e,
          laws.as_object-object (normalize_message (remove_all d extra_choice_fields)),
        )
        (get-normalize_message (remove_all d extra_choice_fields) k
          ∙ rw (get-remove_all d extra_choice_fields k) (
              if-removed (contains extra_choice_fields k) (same (bytes "message") k) normal_message
                (Dict.get d k)))

  -- A response that is an object keeps its members but the three outside the format, with the
  -- requested model and the choices made normal.
  pub member-normalize_openai_response :
      (v : V) (requested_model k : Str)
      → IsObject v
      → member (normalize_openai_response v requested_model) k ≡ (
          if contains extra_fields k
          then none
          else if same (bytes "model") k
          then some (json.string requested_model)
          else if same (bytes "choices") k
          then map_opt normal_choices (member v k)
          else member v k)
  unfolding normalize_openai_response same
  member-normalize_openai_response v requested_model k (d, e) =
      let named = Dict.put d (bytes "model") (json.string requested_model) in
      rw
        (
          normalize_openai_response,
          e,
          laws.as_object-object (normalize_choices (remove_all named extra_fields)),
        )
        (get-normalize_choices (remove_all named extra_fields) k
          ∙ rw
              (
                get-remove_all named extra_fields k,
                get-put d (bytes "model") k (json.string requested_model),
              )
              (if-named k requested_model d))

  -- The tokens that an answer reports are not touched.
  pub usage_tokens-normalize_openai_response :
      (v : V) (requested_model : Str)
      → IsObject v
      → usage_tokens (normalize_openai_response v requested_model) ≡ usage_tokens v
  unfolding usage_tokens same
  usage_tokens-normalize_openai_response v requested_model h =
      rw (usage_tokens, member-normalize_openai_response v requested_model (bytes "usage") h) refl

  pub normalize_openai_response-IsObject :
      (v : V) (requested_model : Str)
      → IsObject v
      → IsObject (normalize_openai_response v requested_model)
  unfolding normalize_openai_response
  normalize_openai_response-IsObject v requested_model (d, e) =
      rw (normalize_openai_response, e) (_, laws.as_object-object _)
