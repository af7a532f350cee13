-- ===== src/Proxy/Headers/Kept.antt =====
-- src/proxy/handler.rs: which headers pass the router, in either direction.
use rust_ai_router.Base.{
  ◌≡◌, refl, ap, ◌∙◌, Bool, true, false, Option, none, some, List, [], ◌∷◌, ◌++◌, Str, bytes, same,
  same_refl, same_iff, any, keep, or_else, eq_ignore_ascii_case, if◌then◌else◌, Bool-cases,
  Option-cases, inl, inr, arith,
}
use rust_ai_router.Base.Dict
use rust_ai_router.Base.Dict.{Dict, get-put}
use rust_ai_router.Json.{Json}
use rust_ai_router.Proxy.Body.{ChatRequest}
use rust_ai_router.Proxy.Headers.{
  Headers, Outgoing, forwarded_names, forwarded_from, is_hop_by_hop, relay_from, relay_headers,
  chat_outgoing, json_outgoing,
}
use rust_ai_router.Router.Balancer.{SelectedEndpoint}

-- The value of the last header of a name.
unfoldable pub last_value : Headers → Str → Option Str
last_value [] name = none
last_value ((n, v) ∷ rest) name =
    or_else (last_value rest name) (if same n name then some v else none)

or_else-none : (o : Option Str) → or_else o none ≡ o
or_else-none none = refl
or_else-none (some v) = refl

pub or_else_assoc : (a b c : Option Str) → or_else a (or_else b c) ≡ or_else (or_else a b) c
or_else_assoc none b c = refl
or_else_assoc (some v) b c = refl

-- One header, put in or not.
get-kept :
    (kept : Dict Str) (n v name : Str)
    → is_hop_by_hop name ≡ false
    → Dict.get (if is_hop_by_hop n then kept else Dict.put kept n v) name
      ≡ or_else (if same n name then some v else none) (Dict.get kept name)
get-kept kept n v name passes = elim (Bool-cases (same n name)) [
  | inl e ↦
      let at : n ≡ name = (same_iff n name).0 e in
      rw (at, passes, get-put kept name name v, same_refl name) refl
  | inr other ↦ elim (Bool-cases (is_hop_by_hop n)) [
    | inl e ↦ rw (e, other) refl
    | inr e ↦ rw (e, get-put kept n name v, other) refl
  ]
]

get-dropped :
    (kept : Dict Str) (n v name : Str)
    → is_hop_by_hop name ≡ true
    → Dict.get (if is_hop_by_hop n then kept else Dict.put kept n v) name ≡ Dict.get kept name
get-dropped kept n v name drops = elim (Bool-cases (is_hop_by_hop n)) [
  | inl e ↦ rw e refl
  | inr e ↦ rw e (
      get-put kept n name v ∙ elim (Bool-cases (same n name)) [
        | inl same_name ↦
            let at : n ≡ name = (same_iff n name).0 same_name in
            let clash : is_hop_by_hop n ≡ true = rw at drops in absurd (ground (arith, clash, e))
        | inr other ↦ rw other refl
      ])
]

relay_from-passes :
    (headers : Headers) (kept : Dict Str) (name : Str)
    → is_hop_by_hop name ≡ false
    → Dict.get (relay_from kept headers) name
      ≡ or_else (last_value headers name) (Dict.get kept name)
unfolding relay_from last_value
relay_from-passes [] kept name passes = refl
relay_from-passes ((n, v) ∷ rest) kept name passes =
    relay_from-passes rest (if is_hop_by_hop n then kept else Dict.put kept n v) name passes
    ∙ ap (or_else (last_value rest name)) (get-kept kept n v name passes)
    ∙ or_else_assoc (last_value rest name) (if same n name then some v else none)
        (Dict.get kept name)

relay_from-drops :
    (headers : Headers) (kept : Dict Str) (name : Str)
    → is_hop_by_hop name ≡ true
    → Dict.get (relay_from kept headers) name ≡ Dict.get kept name
unfolding relay_from
relay_from-drops [] kept name drops = refl
relay_from-drops ((n, v) ∷ rest) kept name drops =
    relay_from-drops rest (if is_hop_by_hop n then kept else Dict.put kept n v) name drops
    ∙ get-dropped kept n v name drops

-- Of an answer's headers, the client gets the last one of each name, and none of those that concern
-- one connection.
pub get-relay_headers :
    (headers : Headers) (name : Str)
    → Dict.get (relay_headers headers) name
      ≡ (if is_hop_by_hop name then none else last_value headers name)
unfolding relay_headers Dict.get
get-relay_headers headers name = elim (Bool-cases (is_hop_by_hop name)) [
  | inl e ↦ rw e (relay_from-drops headers [] name e)
  | inr e ↦ rw e (relay_from-passes headers [] name e ∙ or_else-none (last_value headers name))
]

-- No header of the names that are handed on carries an authorization.
abbrev authorizes : Str × Str → Bool
authorizes h = eq_ignore_ascii_case h.0 (bytes "authorization")

forwarded_from-unauthorized :
    (given : Dict Str) (names : List Str)
    → any (λ n. eq_ignore_ascii_case n (bytes "authorization")) names ≡ false
    → keep authorizes (forwarded_from given names) ≡ []
unfolding forwarded_from
forwarded_from-unauthorized given [] h = refl
forwarded_from-unauthorized given (name ∷ names) h =
    let here : eq_ignore_ascii_case name (bytes "authorization") ≡ false = ground (arith, h) in
    let rest = forwarded_from-unauthorized given names (ground (arith, h)) in
    elim (Option-cases (Dict.get given name)) [
      | inl e ↦ rw (forwarded_from, e) rest
      | inr (v, e) ↦ rw (forwarded_from, e, here) rest
    ]

module _ {V F : Type 0} ⦃json : Json V⦄ where
  -- A body that reads as a JSON value is sent to the endpoint, in a request that is authorised by the
  -- endpoint's key alone, whatever headers the client has sent, and whose body is that value printed.
  pub authorization-chat_outgoing :
      (ep : SelectedEndpoint F) (r : ChatRequest) (given : Dict Str) (v : V)
      → json.from_slice r.body_bytes ≡ some v
      → (out : Outgoing) × (chat_outgoing V ep r given ≡ some out)
        × (keep (λ h. eq_ignore_ascii_case h.0 (bytes "authorization")) out.headers
            ≡ (bytes "Authorization", bytes "Bearer " ++ ep.api_key) ∷ [])
        × (out.body ≡ json.to_vec v)
  unfolding chat_outgoing json_outgoing eq_ignore_ascii_case same
  authorization-chat_outgoing ep r given v read =
      let headers = forwarded_from-unauthorized given forwarded_names refl in
      (
        json_outgoing ep r given v,
        rw read refl,
        ap (λ l. (bytes "Authorization", bytes "Bearer " ++ ep.api_key) ∷ l) headers,
        refl,
      )
