-- ===== src/Anthropic.antt =====
-- src/proxy/anthropic.rs: requests and responses translated between the two interfaces. The
-- identifier of a response, a random UUID, is an argument.
pub mod Fields
pub mod Messages
pub mod Request
pub mod Response
use rust_ai_router.Base.{
  ℕ, ◌≡◌, Bool, Option, none, some, List, [], ◌∷◌, ◌++◌, Str, bytes, same, map, is_some, get_elem?,
  and_then, get_or, map_or, strip_suffix, if◌then◌else◌,
}
use rust_ai_router.Base.Dict.{Dict}
use rust_ai_router.Json.{Json, member, assign, str_member}

-- `is_anthropic_request`
unfoldable pub is_anthropic_request : Str → Bool
is_anthropic_request path = is_some (strip_suffix (bytes "/v1/messages") path)

-- The fields that are copied as they are.
abbrev pub copied_fields : List Str
copied_fields = bytes "max_tokens" ∷ bytes "temperature" ∷ bytes "top_p" ∷ bytes "stream" ∷ []

-- `finish_reason` → `stop_reason`
unfoldable pub stop_reason : Str → Str
unfolding same
stop_reason finish_reason =
    if same finish_reason (bytes "stop")
    then bytes "end_turn"
    else if same finish_reason (bytes "length")
    then bytes "max_tokens"
    else if same finish_reason (bytes "content_filter")
    then bytes "content_filter"
    else bytes "end_turn"

module _ {V : Type 0} ⦃json : Json V⦄ where
  -- The model that a body names.
  unfoldable pub model_of : V → Str
  model_of body = get_or (str_member body (bytes "model")) (bytes "unknown")

  -- `json!({"role": role, "content": content})`
  unfoldable pub role_message : Str → V → V
  role_message role content =
      json.object ((bytes "role", json.string role) ∷ (bytes "content", content) ∷ [])

  -- `openai["messages"].push(message)`, if it is an array
  unfoldable pub push_message : V → V → V
  push_message openai message = elim (and_then (member openai (bytes "messages")) json.as_array) [
    | none ↦ openai
    | some arr ↦ assign openai (bytes "messages") (json.array (arr ++ message ∷ []))
  ]

  -- One message: the role is a user's unless it says otherwise, and a missing content is null.
  unfoldable pub translate_message : V → V
  unfolding role_message
  translate_message msg =
      role_message (get_or (str_member msg (bytes "role")) (bytes "user"))
        (get_or (member msg (bytes "content")) json.null)

  unfoldable pub push_messages : V → List V → V
  unfolding push_message translate_message
  push_messages openai [] = openai
  push_messages openai (msg ∷ rest) =
      push_messages (push_message openai (translate_message msg)) rest

  -- `openai[to] = body[from]`, if it is there
  unfoldable pub copy_field : V → V → Str → Str → V
  copy_field body openai from to = elim (member body from) [
    | none ↦ openai
    | some v ↦ assign openai to v
  ]

  unfoldable pub copy_fields : V → V → List Str → V
  unfolding copy_field
  copy_fields body openai [] = openai
  copy_fields body openai (f ∷ fs) = copy_fields body (copy_field body openai f f) fs

  -- `json!({"model": model, "messages": []})`
  unfoldable pub bare_request : Str → V
  bare_request model =
      json.object ((bytes "model", json.string model) ∷ (bytes "messages", json.array []) ∷ [])

  -- `translate_request`
  unfoldable pub translate_request : V → V × Str
  unfolding model_of push_message push_messages copy_fields bare_request
  translate_request body =
      let model = model_of body in
      let start = bare_request model in
      let with_system : V = elim (str_member body (bytes "system")) [
        | none ↦ start
        | some system ↦ push_message start (role_message (bytes "system") (json.string system))
      ] in
      let with_messages : V = elim (and_then (member body (bytes "messages")) json.as_array) [
        | none ↦ with_system
        | some messages ↦ push_messages with_system messages
      ] in
      let with_fields = copy_fields body with_messages copied_fields in
      let with_stop = copy_field body with_fields (bytes "stop_sequences") (bytes "stop") in
      (assign with_stop (bytes "__anthropic_request") body, model)

  -- The first choice of a response, its text, and the reason why it ends.
  abbrev pub first_choice : V → Option V
  first_choice openai_resp =
      and_then (and_then (member openai_resp (bytes "choices")) json.as_array)
        (λ arr. get_elem? arr 0)

  abbrev pub content_of : V → V
  content_of openai_resp =
      get_or
        (and_then (and_then (first_choice openai_resp) (λ c. member c (bytes "message")))
          (λ m. member m (bytes "content")))
        json.null

  abbrev pub finish_reason_of : V → Str
  finish_reason_of openai_resp =
      get_or (and_then (first_choice openai_resp) (λ c. str_member c (bytes "finish_reason")))
        (bytes "stop")

  -- The response but for the tokens.
  unfoldable pub bare_response : V → Str → V
  unfolding stop_reason model_of
  bare_response openai_resp uuid = json.object (
      (bytes "id", json.string (bytes "msg_" ++ uuid))
      ∷ (bytes "type", json.string (bytes "message"))
      ∷ (bytes "role", json.string (bytes "assistant"))
      ∷ (
        bytes "content",
        json.array (
            json.object (
              (bytes "type", json.string (bytes "text"))
              ∷ (bytes "text", content_of openai_resp)
              ∷ [])
            ∷ []),
      )
      ∷ (bytes "model", json.string (model_of openai_resp))
      ∷ (bytes "stop_reason", json.string (stop_reason (finish_reason_of openai_resp)))
      ∷ (bytes "stop_sequence", json.null)
      ∷ [])

  unfoldable pub token_counts : V → V
  token_counts usage = json.object (
      (bytes "input_tokens", get_or (member usage (bytes "prompt_tokens")) (json.number 0))
      ∷ (bytes "output_tokens", get_or (member usage (bytes "completion_tokens")) (json.number 0))
      ∷ [])

  -- `translate_response`
  unfoldable pub translate_response : V → Str → V
  unfolding bare_response token_counts
  translate_response openai_resp uuid = elim (member openai_resp (bytes "usage")) [
    | none ↦ bare_response openai_resp uuid
    | some usage ↦ assign (bare_response openai_resp uuid) (bytes "usage") (token_counts usage)
  ]
