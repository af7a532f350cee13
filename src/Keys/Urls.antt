-- ===== src/Keys/Urls.antt =====
-- src/utils.rs: addresses as they are shown in logs and reports. The URL parser of the crate url is
-- a parameter, with what the program reads of a parsed URL.
pub mod Hidden
use rust_ai_router.Base.{
  ℕ, ◌+◌, ◌==◌, Bool, true, false, Option, none, some, List, [], ◌∷◌, ◌++◌, Str, bytes, find_str,
  to_string, length, take, drop, map, map_or, is_empty, leb, ltb, if◌then◌else◌,
}
use rust_ai_router.Keys.{ends_of}

-- `mask_redis_url`
unfoldable pub mask_redis_url : Str → Str
unfolding find_str
mask_redis_url url = elim (find_str url (bytes "@")) [
  | none ↦ url
  | some at ↦ bytes "redis://***@" ++ drop (at + 1) url
]

-- What is read of a parsed URL: its scheme, its host, empty when there is none, whether the host is
-- an IP address, its port unless it is the scheme's own, and its path.
pub record ParsedUrl : Type 0 where
  pub scheme : Str
  pub host : Str
  pub is_ip : Bool
  pub port : Option ℕ
  pub path : Str

-- `s.split(c)` and `parts.join(c)`
unfoldable pub split_from : ℕ → Str → Str → List Str
split_from c part [] = part ∷ []
split_from c part (d ∷ s) = elim (d == c) [
  | true ↦ part ∷ split_from c [] s
  | false ↦ split_from c (part ++ d ∷ []) s
]

unfoldable pub join : ℕ → List Str → Str
join c [] = []
join c (part ∷ []) = part
join c (part ∷ next ∷ rest) = part ++ c ∷ join c (next ∷ rest)

-- `mask_segment`, also of an empty segment
unfoldable pub mask_segment : Str → Str
mask_segment seg = if leb (length seg) 8 then seg else ends_of 4 seg

-- The host that is shown.
unfoldable pub mask_domain : Str → List Str → Str
unfolding join
mask_domain host [] = host
mask_domain host (first ∷ []) = host
mask_domain host (first ∷ next ∷ rest) =
    (if ltb 3 (length first) then take 3 first else first)
    ++ bytes "***."
    ++ join b'.' (next ∷ rest)

unfoldable pub mask_host : Str → Bool → Str
unfolding find_str mask_domain split_from
mask_host host true = elim (find_str host (bytes ".")) [
  | none ↦ bytes "***"
  | some pos ↦ take pos host ++ bytes ".***"
]
mask_host host false = mask_domain host (split_from b'.' [] host)

-- `mask_endpoint_url`
unfoldable pub mask_endpoint_url : (Str → Option ParsedUrl) → Str → Str
unfolding mask_host mask_segment split_from join to_string
mask_endpoint_url parse url = elim (parse url) [
  | none ↦ url
  | some u ↦
      u.scheme
      ++ bytes "://"
      ++ mask_host u.host u.is_ip
      ++ map_or [] (λ port. bytes ":" ++ to_string port) u.port
      ++ join b'/' (map mask_segment (split_from b'/' [] u.path))
]
