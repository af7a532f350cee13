-- ===== src/Anthropic/Response.antt =====
-- src/proxy/anthropic.rs: what a translated response says of the one that it comes from.
use rust_ai_router.Anthropic.{
  model_of, stop_reason, content_of, finish_reason_of, bare_response, token_counts,
  translate_response,
}
use rust_ai_router.Base.{
  arith, ℕ, ◌≡◌, refl, sym, ◌∙◌, ap, Bool, true, false, Option, none, some, [], ◌∷◌, Str, bytes,
  same, and_then, get_or, or_else, map_opt, if◌then◌else◌, Option-cases, inl, inr,
}
use rust_ai_router.Base.Dict
use rust_ai_router.Json.{Json, JsonLaws, member, str_member, u64_member}
use rust_ai_router.Json.Members.{IsObject, member-assign, member-object}
use rust_ai_router.Proxy.Response.{usage_tokens}

module _ {V : Type 0} ⦃json : Json V⦄ where
  -- The tokens that a response reports under their OpenAI names.
  abbrev pub openai_tokens : V → ℕ × ℕ
  openai_tokens v = elim (member v (bytes "usage")) [
    | none ↦ (0, 0)
    | some u ↦ (
      get_or (u64_member u (bytes "prompt_tokens")) 0,
      get_or (u64_member u (bytes "completion_tokens")) 0,
    )
  ]

  -- The one text block of the response.
  abbrev pub text_block : V → V
  text_block content =
      json.object ((bytes "type", json.string (bytes "text")) ∷ (bytes "text", content) ∷ [])

module _ {V : Type 0} ⦃json : Json V⦄ (laws : JsonLaws V) where
  bare_response-IsObject : (v : V) (uuid : Str) → IsObject (bare_response v uuid)
  unfolding bare_response
  bare_response-IsObject v uuid = (_, laws.as_object-object _)

  -- The tokens are the only member that is added.
  member-translate_response :
      (v : V) (uuid k : Str)
      → member (translate_response v uuid) k ≡ (
          if same (bytes "usage") k
          then or_else
              (map_opt token_counts (member v (bytes "usage")))
              (member (bare_response v uuid) k)
          else member (bare_response v uuid) k)
  unfolding translate_response
  member-translate_response v uuid k = elim (Option-cases (member v (bytes "usage"))) [
    | inl e ↦
        rw (translate_response, e)
          (sym (if-both (same (bytes "usage") k) (member (bare_response v uuid) k)))
    | inr (u, e) ↦
        rw (translate_response, e)
          (member-assign laws (bare_response v uuid) (bytes "usage") k (token_counts u)
            (bare_response-IsObject v uuid))
  ]
    where
      if-both : (b : Bool) (o : Option V) → (if b then o else o) ≡ o
      if-both true o = refl
      if-both false o = refl

  usage-bare_response : (v : V) (uuid : Str) → member (bare_response v uuid) (bytes "usage") ≡ none
  unfolding bare_response same Dict.get
  usage-bare_response v uuid = member-object laws _ (bytes "usage")

  -- A count that is missing is written as 0.
  count :
      (o : Option V)
      → get_or (json.as_u64 (get_or o (json.number 0))) 0 ≡ get_or (and_then o json.as_u64) 0
  count none = rw (laws.as_u64-number 0 (omega arith)) refl
  count (some v) = refl

  members-token_counts :
      (usage : V)
      → (member (token_counts usage) (bytes "prompt_tokens") ≡ none)
        × (member (token_counts usage) (bytes "input_tokens")
            ≡ some (get_or (member usage (bytes "prompt_tokens")) (json.number 0)))
        × (member (token_counts usage) (bytes "completion_tokens") ≡ none)
        × (member (token_counts usage) (bytes "output_tokens")
            ≡ some (get_or (member usage (bytes "completion_tokens")) (json.number 0)))
  unfolding token_counts same Dict.get
  members-token_counts usage = (
    member-object laws _ (bytes "prompt_tokens"),
    member-object laws _ (bytes "input_tokens"),
    member-object laws _ (bytes "completion_tokens"),
    member-object laws _ (bytes "output_tokens"),
  )

  usage-translate_response :
      (v : V) (uuid : Str) → usage_tokens (translate_response v uuid) ≡ openai_tokens v
  unfolding usage_tokens same
  usage-translate_response v uuid = elim (Option-cases (member v (bytes "usage"))) [
    | inl e ↦
        rw
          (
            usage_tokens,
            member-translate_response v uuid (bytes "usage"),
            openai_tokens,
            e,
            usage-bare_response v uuid,
          )
          refl
    | inr (u, e) ↦
        let (no_prompt, input, no_completion, output) = members-token_counts u in
        rw
          (
            usage_tokens,
            member-translate_response v uuid (bytes "usage"),
            openai_tokens,
            e,
            no_prompt,
            input,
            no_completion,
            output,
          )
          (λ i. (
            count (member u (bytes "prompt_tokens")) i,
            count (member u (bytes "completion_tokens")) i,
          ))
  ]

  -- A translated response has the text and the model of the one that it comes from, the stop reason
  -- that its finish reason becomes, and the tokens that it reports under their OpenAI names.
  pub translate_response-members :
      (v : V) (uuid : Str)
      → (member (translate_response v uuid) (bytes "content")
          ≡ some (json.array (text_block (content_of v) ∷ [])))
        × (str_member (translate_response v uuid) (bytes "model") ≡ some (model_of v))
        × (str_member (translate_response v uuid) (bytes "stop_reason")
            ≡ some (stop_reason (finish_reason_of v)))
        × (usage_tokens (translate_response v uuid) ≡ openai_tokens v)
  unfolding same bare_response Dict.get
  translate_response-members v uuid = (
    member-translate_response v uuid (bytes "content") ∙ member-object laws _ (bytes "content"),
    rw (member-translate_response v uuid (bytes "model")) (
        ap (λ o. and_then o json.as_str) (member-object laws _ (bytes "model"))
        ∙ laws.as_str-string (model_of v)),
    rw (member-translate_response v uuid (bytes "stop_reason")) (
        ap (λ o. and_then o json.as_str) (member-object laws _ (bytes "stop_reason"))
        ∙ laws.as_str-string (stop_reason (finish_reason_of v))),
    usage-translate_response v uuid,
  )
