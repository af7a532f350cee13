-- ===== src/Proxy/Response/Choices.antt =====
-- src/proxy/handler.rs: what `normalize_openai_response` does to a response with choices.
use rust_ai_router.Base.{
  ℕ, ◌≡◌, refl, ap, ◌∙◌, Option, none, some, List, [], ◌∷◌, Str, bytes, same, map, map_opt,
  contains, length, get_elem?, length-map, get_elem?-map, if◌then◌else◌,
}
use rust_ai_router.Base.Dict
use rust_ai_router.Base.Dict.{get-remove}
use rust_ai_router.Json.{Json, JsonLaws, member}
use rust_ai_router.Json.Members.{IsObject}
use rust_ai_router.Proxy.Response.{
  extra_fields, extra_choice_fields, normalize_choice, normalize_openai_response,
}
use rust_ai_router.Proxy.Response.Normal.{
  if-same_changed, normal_choices, normal_message, member-normalize_choice,
  member-normalize_openai_response,
}

module _ {V : Type 0} ⦃json : Json V⦄ where
  abbrev rooted : Str → Str → Option V → Option V
  rooted requested_model k rest =
      if contains extra_fields k
      then none
      else if same (bytes "model") k
      then some (json.string requested_model)
      else rest

  -- A member of an object that is there, and is changed.
  changed :
      (v : V) (key k : Str) (x y : V) (f : V → V)
      → IsObject v
      → member v key ≡ some x
      → f x ≡ y
      → (if same key k then map_opt f (member v k) else member v k)
        ≡ (if same key k then some y else member v k)
  changed v key k x y f (d, e) there fx =
      let here : Dict.get d key ≡ some x = rw e at there in
      rw e (if-same_changed key k d x y f here fx)

module _ {V : Type 0} ⦃json : Json V⦄ (laws : JsonLaws V) where
  -- What `normalize_openai_response` does to a response that is an object, with the choices that it
  -- lists and the message of one of them, all objects: the response is told to come from the
  -- requested model, and loses `prompt_logprobs`, `prompt_token_ids` and `kv_transfer_params`; there
  -- are as many choices as before, and the choice at the same place loses `stop_reason`, `token_ids`
  -- and `provider_specific_fields`, and its message `provider_specific_fields`. All other members
  -- stay as they are.
  pub normalize_openai_response-choice :
      (v c : V) (requested_model : Str) (cs : List V) (i : ℕ) (choice message : V)
      → IsObject v
      → member v (bytes "choices") ≡ some c
      → json.as_array c ≡ some cs
      → get_elem? cs i ≡ some choice
      → IsObject choice
      → member choice (bytes "message") ≡ some message
      → IsObject message
      → (cs' : List V) × (choice' : V) × (message' : V) × ((k : Str)
          → member (normalize_openai_response v requested_model) k ≡ (
              if contains
                (bytes "prompt_logprobs"
                  ∷ bytes "prompt_token_ids"
                  ∷ bytes "kv_transfer_params"
                  ∷ [])
                k
              then none
              else if same (bytes "model") k
              then some (json.string requested_model)
              else if same (bytes "choices") k
              then some (json.array cs')
              else member v k))
        × (length cs' ≡ length cs)
        × (get_elem? cs' i ≡ some choice')
        × ((k : Str)
            → member choice' k ≡ (
                if contains
                  (bytes "stop_reason" ∷ bytes "token_ids" ∷ bytes "provider_specific_fields" ∷ [])
                  k
                then none
                else if same (bytes "message") k
                then some message'
                else member choice k))
        × ((k : Str)
            → member message' k
              ≡ (if same (bytes "provider_specific_fields") k then none else member message k))
  unfolding normal_choices normal_message
  normalize_openai_response-choice v c requested_model cs i choice message h has is_array at hc
        has_m (msg, hm) =
      (
        map normalize_choice cs,
        normalize_choice choice,
        json.object (Dict.remove msg (bytes "provider_specific_fields")),
        (λ k.
            member-normalize_openai_response laws v requested_model k h
            ∙ ap (λ rest. rooted requested_model k rest)
                (changed v (bytes "choices") k c _ normal_choices h has
                  (rw (normal_choices, is_array) refl))),
        length-map normalize_choice cs,
        get_elem?-map normalize_choice cs i choice at,
        (λ k.
            member-normalize_choice laws choice k hc
            ∙ ap (λ rest. if contains extra_choice_fields k then none else rest)
                (changed choice (bytes "message") k message _ normal_message hc has_m
                  (rw (normal_message, hm) refl))),
        (λ k.
            rw (laws.as_object-object (Dict.remove msg (bytes "provider_specific_fields")), hm)
              (get-remove msg (bytes "provider_specific_fields") k)),
      )
