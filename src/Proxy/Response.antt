-- ===== src/Proxy/Response.antt =====
-- src/proxy/handler.rs: what `proxy_handler` reads from an answer, and what it makes of its body.
pub mod Normal
pub mod Client
pub mod Choices
use rust_ai_router.Anthropic.{translate_response}
use rust_ai_router.Base.{
  ℕ, ◌*◌, Bool, Option, none, some, List, [], ◌∷◌, Str, bytes, map, length, and_then, get_or,
  or_else, leb, not, is_some, true, false, ◌&&◌, ◌||◌, if◌then◌else◌,
}
use rust_ai_router.Base.Dict
use rust_ai_router.Base.Dict.{Dict}
use rust_ai_router.Json.{Json, member}
use rust_ai_router.Proxy.Body.{ChatRequest}

-- The most bytes that are read of an answer; a longer one counts as empty.
abbrev pub max_answer : ℕ
max_answer = 1024 * 1024

unfoldable pub read_answer : Str → Str
read_answer body = if leb (length body) max_answer then body else []

-- How the client gets an answer: with the headers of the router, or translated for a client of the
-- Anthropic interface, or as it was kept while other endpoints were tried.
pub data Given : Type 0 where
  own_answer translated_answer kept_answer : Given

-- The fields outside the OpenAI format, in a response and in a choice.
abbrev pub extra_fields : List Str
extra_fields = bytes "prompt_logprobs" ∷ bytes "prompt_token_ids" ∷ bytes "kv_transfer_params" ∷ []

abbrev pub extra_choice_fields : List Str
extra_choice_fields =
    bytes "stop_reason" ∷ bytes "token_ids" ∷ bytes "provider_specific_fields" ∷ []

module _ {V : Type 0} where
  unfoldable pub remove_all : Dict V → List Str → Dict V
  unfolding Dict.remove
  remove_all d [] = d
  remove_all d (k ∷ ks) = remove_all (Dict.remove d k) ks

module _ {V : Type 0} ⦃json : Json V⦄ where
  -- The prompt and the completion tokens that an answer reports.
  unfoldable pub usage_tokens : V → ℕ × ℕ
  usage_tokens v = elim (member v (bytes "usage")) [
    | none ↦ (0, 0)
    | some usage ↦ (
      get_or
          (and_then
            (or_else (member usage (bytes "prompt_tokens")) (member usage (bytes "input_tokens")))
            json.as_u64)
          0,
      get_or
          (and_then
            (or_else (member usage (bytes "completion_tokens"))
              (member usage (bytes "output_tokens")))
            json.as_u64)
          0,
    )
  ]

  -- `msg.remove("provider_specific_fields")`, where the message is an object
  unfoldable pub normalize_message : Dict V → Dict V
  unfolding Dict.put Dict.get Dict.remove
  normalize_message choice = elim (and_then (Dict.get choice (bytes "message")) json.as_object) [
    | none ↦ choice
    | some msg ↦
        Dict.put choice (bytes "message")
          (json.object (Dict.remove msg (bytes "provider_specific_fields")))
  ]

  unfoldable pub normalize_choice : V → V
  unfolding remove_all normalize_message
  normalize_choice choice = elim (json.as_object choice) [
    | none ↦ choice
    | some obj ↦ json.object (normalize_message (remove_all obj extra_choice_fields))
  ]

  unfoldable pub normalize_choices : Dict V → Dict V
  unfolding normalize_choice Dict.put Dict.get
  normalize_choices obj = elim (and_then (Dict.get obj (bytes "choices")) json.as_array) [
    | none ↦ obj
    | some choices ↦ Dict.put obj (bytes "choices") (json.array (map normalize_choice choices))
  ]

  -- `normalize_openai_response`
  unfoldable pub normalize_openai_response : V → Str → V
  unfolding remove_all normalize_choices Dict.put
  normalize_openai_response value requested_model = elim (json.as_object value) [
    | none ↦ value
    | some obj ↦ json.object (
        normalize_choices
          (remove_all (Dict.put obj (bytes "model") (json.string requested_model)) extra_fields))
  ]

module _ (V : Type 0) ⦃json : Json V⦄ where
  -- The tokens of the bytes of an answer.
  unfoldable pub answer_usage : Str → ℕ × ℕ
  unfolding usage_tokens read_answer
  answer_usage body = elim (json.from_slice (read_answer body)) [
    | none ↦ (0, 0)
    | some v ↦ usage_tokens v
  ]

  -- `kept` is whether the answer is `last_error_response`.
  unfoldable pub given_as : ChatRequest → Bool → Str → Given
  unfolding read_answer
  given_as r kept body =
      if kept
      then kept_answer
      else if not r.is_stream && r.is_anthropic && is_some (json.from_slice (read_answer body))
      then translated_answer
      else own_answer

  -- The body that the client gets. A stream is handed on as it is, and so is a kept answer.
  unfoldable pub client_body : ChatRequest → Str → Bool → Str → Str
  unfolding normalize_openai_response translate_response read_answer
  client_body r uuid kept body =
      let answer = read_answer body in
      let rebuilt = elim (json.from_slice answer) as (λ _. Str) [
        | none ↦ answer
        | some v ↦
            let normal = normalize_openai_response v r.model_name in
            if r.is_anthropic
            then json.to_vec (translate_response normal uuid)
            else json.to_vec normal
      ] in
      if kept || r.is_stream then body else rebuilt
