-- ===== src/Proxy/Headers.antt =====
-- src/proxy/handler.rs: the requests that are handed to the HTTP client, with their headers, and
-- the headers of an answer that reach the client.
pub mod Kept
use rust_ai_router.Base.{
  ℕ, ◌==◌, Bool, Option, none, some, List, [], ◌∷◌, ◌++◌, Str, bytes, same, contains, is_empty,
  map_opt, trim_end_matches, if◌then◌else◌,
}
use rust_ai_router.Base.Dict
use rust_ai_router.Base.Dict.{Dict}
use rust_ai_router.Json.{Json}
use rust_ai_router.Proxy.Body.{ChatRequest}
use rust_ai_router.Router.Balancer.{SelectedEndpoint}

-- The headers in the order in which they are added.
abbrev pub Headers : Type 0
Headers = List (Str × Str)

pub record Outgoing : Type 0 where
  pub url : Str
  pub headers : Headers
  pub body : Str

-- The client's headers that are handed on.
abbrev pub forwarded_names : List Str
forwarded_names = bytes "x-request-id" ∷ bytes "x-session-id" ∷ bytes "user-agent" ∷ []

unfoldable pub forwarded_from : Dict Str → List Str → Headers
unfolding Dict.get
forwarded_from given [] = []
forwarded_from given (name ∷ names) =
    let rest = forwarded_from given names in
    elim (Dict.get given name) [ none ↦ rest | some v ↦ (name, v) ∷ rest ]

-- The headers of an answer that concern one connection, or a body as it was encoded.
abbrev pub hop_by_hop : List Str
hop_by_hop =
    bytes "transfer-encoding"
    ∷ bytes "content-encoding"
    ∷ bytes "content-length"
    ∷ bytes "connection"
    ∷ bytes "keep-alive"
    ∷ []

unfoldable pub is_hop_by_hop : Str → Bool
unfolding same
is_hop_by_hop name = contains hop_by_hop name

-- `hdr.insert(name, val)` for each header of the answer: a later one takes the place of an earlier
-- one of the same name.
unfoldable pub relay_from : Dict Str → Headers → Dict Str
unfolding Dict.put is_hop_by_hop
relay_from kept [] = kept
relay_from kept ((name, v) ∷ rest) =
    relay_from (if is_hop_by_hop name then kept else Dict.put kept name v) rest

unfoldable pub relay_headers : Headers → Dict Str
unfolding relay_from
relay_headers headers = relay_from [] headers

module _ {V F : Type 0} ⦃json : Json V⦄ where
  -- The request with a value as its body. `given` holds the client's headers, by their names in
  -- lower case.
  unfoldable pub json_outgoing : SelectedEndpoint F → ChatRequest → Dict Str → V → Outgoing
  unfolding trim_end_matches forwarded_from
  json_outgoing ep r given v = record {
    url = trim_end_matches b'/' ep.url ++ r.upstream_path;
    headers =
        (bytes "Authorization", bytes "Bearer " ++ ep.api_key)
        ∷ (bytes "Content-Type", bytes "application/json")
        ∷ forwarded_from given forwarded_names;
    body = json.to_vec v;
  }

module _ (V : Type 0) {F : Type 0} ⦃json : Json V⦄ where
  -- The request of `proxy_regular` and of a stream, unless the body cannot be read.
  unfoldable pub chat_outgoing : SelectedEndpoint F → ChatRequest → Dict Str → Option Outgoing
  unfolding json_outgoing
  chat_outgoing ep r given = map_opt (json_outgoing ep r given) (json.from_slice r.body_bytes)

module _ {F : Type 0} where
  -- The request of `proxy_raw`
  unfoldable pub raw_outgoing : SelectedEndpoint F → Str → Str → Str → Outgoing
  unfolding trim_end_matches
  raw_outgoing ep req_path content_type body = record {
    url = trim_end_matches b'/' ep.url ++ req_path;
    headers =
        (bytes "Authorization", bytes "Bearer " ++ ep.api_key)
        ∷ (if is_empty content_type then [] else (bytes "Content-Type", content_type) ∷ []);
    body = body;
  }
