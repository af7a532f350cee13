-- ===== src/Proxy/Replies/Shown.antt =====
-- src/proxy/handler.rs: the headers of the answers that reach the client.
use rust_ai_router.Base.{
  is_some, true, ℕ, ◌≡◌, refl, ap, ◌∙◌, Bool, false, not, ◌&&◌, none, some, [], ◌∷◌, Str, bytes,
  same, any, keep, or_else, ltb, leb, if◌then◌else◌, Bool-cases, inl, inr, arith, Float,
}
use rust_ai_router.Base.Dict
use rust_ai_router.Base.Dict.{Dict, get-put}
use rust_ai_router.Proxy.Headers.{Headers, is_hop_by_hop}
use rust_ai_router.Proxy.Headers.Kept.{last_value, or_else_assoc, get-relay_headers}
use rust_ai_router.Proxy.Replies.{
  insert_header, insert_headers, own_headers, answer_headers, delivered_reply,
}
use rust_ai_router.Json.{Json}
use rust_ai_router.Proxy.Body.{ChatRequest}
use rust_ai_router.Proxy.Response.{read_answer, given_as}
use rust_ai_router.Router.Balancer.{SelectedEndpoint}

module _ (is_header_value : Str → Bool) where
  get-insert_header :
      (d : Dict Str) (n v name : Str)
      → Dict.get (insert_header is_header_value d n v) name
        ≡ or_else
            (if is_header_value v then (if same n name then some v else none) else none)
            (Dict.get d name)
  unfolding insert_header
  get-insert_header d n v name = elim (Bool-cases (is_header_value v)) [
    | inr e ↦ rw e refl
    | inl e ↦
        rw (e, get-put d n name v)
          (elim (Bool-cases (same n name)) [ inl at ↦ rw at refl | inr other ↦ rw other refl ])
  ]

  -- A header that is put in later takes the place of an earlier one.
  pub get-insert_headers :
      (d : Dict Str) (headers : Headers) (name : Str)
      → Dict.get (insert_headers is_header_value d headers) name
        ≡ or_else (last_value (keep (λ h. is_header_value h.1) headers) name) (Dict.get d name)
  unfolding insert_headers last_value
  get-insert_headers d [] name = refl
  get-insert_headers d ((n, v) ∷ headers) name =
      get-insert_headers (insert_header is_header_value d n v) headers name
      ∙ ap (or_else (last_value (keep (λ h. is_header_value h.1) headers) name))
          (get-insert_header d n v name)
      ∙ elim (Bool-cases (is_header_value v)) [
        | inl e ↦ rw e (
            or_else_assoc (last_value (keep (λ h. is_header_value h.1) headers) name)
              (if same n name then some v else none) (Dict.get d name))
        | inr e ↦ rw e refl
      ]

  -- Headers of other names say nothing of a name.
  pub last_value-absent :
      (headers : Headers) (name : Str)
      → any (λ h. same h.0 name) headers ≡ false
      → last_value (keep (λ h. is_header_value h.1) headers) name ≡ none
  unfolding last_value
  last_value-absent [] name h = refl
  last_value-absent ((n, v) ∷ headers) name h =
      let other : same n name ≡ false = ground (arith, h) in
      let rest = last_value-absent headers name (ground (arith, h)) in
      elim (Bool-cases (is_header_value v)) [
        | inl e ↦ rw (e, last_value, rest, other) refl
        | inr e ↦ rw e rest
      ]

module _ (V : Type 0) {F : Type 0} ⦃json : Json V⦄ ⦃fl : Float F⦄ (is_header_value : Str → Bool)
    (print : F → Str) where
  get-answer_headers :
      (is_stream : Bool) (status : ℕ) (upstream : Headers) (name : Str)
      → Dict.get (answer_headers is_stream status upstream) name ≡ (
          if is_stream && not (leb 200 status && ltb status 300)
          then (if same (bytes "content-type") name then some (bytes "application/json") else none)
          else if is_hop_by_hop name
          then none
          else last_value upstream name)
  unfolding answer_headers Dict.get
  get-answer_headers is_stream status upstream name =
      elim (Bool-cases (is_stream && not (leb 200 status && ltb status 300))) [
        | inl e ↦ rw e refl
        | inr e ↦ rw (e, get-relay_headers upstream name) refl
      ]

  -- What the client reads under each name, of an answer that `proxy_handler` gives it. An answer that
  -- is translated for a client of the Anthropic interface has its type and nothing else. Of any
  -- other one, the client reads the last value that the endpoint gives, but of no header that
  -- concerns one connection; of a stream that the endpoint refuses only the type is left, which is
  -- JSON. Where the router says something under the name, this comes instead, except on the last
  -- error of a request whose endpoints have all failed, to which it adds nothing.
  pub get-delivered_reply :
      (r : ChatRequest) (uuid : Str) (kept : Bool) (ep : SelectedEndpoint F) (status : ℕ)
      (upstream : Headers) (latency_ms : ℕ) (instance_name body name : Str)
      → Dict.get
          (delivered_reply V is_header_value print r uuid kept ep status upstream latency_ms
            instance_name body).headers
          name
        ≡ (let typed =
              if same (bytes "content-type") name then some (bytes "application/json") else none in
            let own =
              last_value
                (keep (λ h. is_header_value h.1) (own_headers print ep latency_ms instance_name))
                name in
            let copied =
              if r.is_stream && not (leb 200 status && ltb status 300)
              then typed
              else if is_hop_by_hop name
              then none
              else last_value upstream name in
            if kept
            then copied
            else if not r.is_stream
                && r.is_anthropic
                && is_some (json.from_slice (read_answer body))
            then typed
            else or_else own copied)
  unfolding delivered_reply given_as Dict.get
  get-delivered_reply r uuid true ep status upstream latency_ms instance_name body name =
      get-answer_headers r.is_stream status upstream name
  get-delivered_reply r uuid false ep status upstream latency_ms instance_name body name =
      elim (Bool-cases
        (not r.is_stream && r.is_anthropic && is_some (json.from_slice (read_answer body)))) [
          | inl e ↦ rw (delivered_reply, given_as, e) refl
          | inr e ↦
              rw (delivered_reply, given_as, e)
                (get-insert_headers is_header_value (answer_headers r.is_stream status upstream)
                    (own_headers print ep latency_ms instance_name) name
                  ∙ rw (get-answer_headers r.is_stream status upstream name) refl)
        ]
