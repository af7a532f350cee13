-- ===== src/Tests/Router.antt =====
-- src/router on the sample configuration.
use rust_ai_router.Base.{
  ℕ, ◌≤◌, ◌<◌, ◌≡◌, refl, ◌↔◌, true, none, some, [], ◌∷◌, bytes, same, length, from_secs, arith,
}
use rust_ai_router.Base.Dict
use rust_ai_router.Base.Dict.{Distinct}
use rust_ai_router.Config.{find_model, ModelConfig}
use rust_ai_router.Keys.{router_key, endpoint_key}
use rust_ai_router.Keys.Clash.{router_key-endpoint_key_iff}
use rust_ai_router.Router.Balancer.{
  build_selected, build_selected_endpoint, select_endpoint, select_available, scan_available, next,
}
use rust_ai_router.Router.Balancer.Available.{
  Picks, excluded, select_available_sound, select_available-none,
}
use rust_ai_router.Router.Balancer.RoundRobin.{after, select_endpoint-reaches}
use rust_ai_router.Router.Sticky.{SessionStickyStore}
use rust_ai_router.Router.Sticky.{new}
use rust_ai_router.Router.Sticky.Refine.{
  bind, renew, lookup, found_by, ideal_found_by, found_by_refines,
}
use rust_ai_router.Samples.{milli, config, chat_model, long_endpoint, short_endpoint}

router_key-endpoint_key_iff_example :
    (router_key long_endpoint ≡ endpoint_key long_endpoint) ↔ (length long_endpoint.key ≤ 6)
router_key-endpoint_key_iff_example = router_key-endpoint_key_iff long_endpoint

chat_known : find_model config (bytes "gpt") ≡ some chat_model
unfolding find_model same
chat_known = refl

-- The first endpoint is banned under the router's key, and the second one is picked.
picks_second :
    (select_available config [] (bytes "gpt") (router_key long_endpoint ∷ []) []).0
    ≡ some (build_selected_endpoint short_endpoint 1 2)
unfolding select_available find_model same scan_available next Dict.get router_key
    rust_ai_router.Keys.mask_key_short
picks_second = refl

select_available_sound_example :
    (m : ModelConfig ℕ) × (find_model config (bytes "gpt") ≡ some m)
    × Picks m.endpoints
        (router_key long_endpoint ∷ [])
        []
        (build_selected_endpoint short_endpoint 1 2)
select_available_sound_example =
    select_available_sound config [] (bytes "gpt") (router_key long_endpoint ∷ []) []
      (build_selected_endpoint short_endpoint 1 2) picks_second

picks_none :
    (select_available config []
      (bytes "gpt")
      (router_key long_endpoint ∷ [])
      (router_key short_endpoint ∷ [])).0
    ≡ none
unfolding select_available find_model same scan_available next Dict.get router_key
    rust_ai_router.Keys.mask_key_short
picks_none = refl

select_available-none_example :
    excluded (router_key long_endpoint ∷ []) (router_key short_endpoint ∷ []) short_endpoint ≡ true
select_available-none_example =
    select_available-none config [] (bytes "gpt") (router_key long_endpoint ∷ [])
      (router_key short_endpoint ∷ []) chat_model chat_known picks_none 1 short_endpoint refl

select_endpoint-reaches_example :
    (k : ℕ) × (k < 2)
    × ((select_endpoint config (after k config [] (bytes "gpt")) (bytes "gpt")).0
        ≡ build_selected chat_model.endpoints 1 2)
unfolding Dict.get
select_endpoint-reaches_example =
    select_endpoint-reaches config (bytes "gpt") chat_model chat_known (omega arith) [] 1
      (omega arith) (omega arith)

abbrev one_session : SessionStickyStore
one_session = record {
  sessions = (bytes "s1", record { endpoint_index = 1; last_access = 0 }) ∷ [];
  ttl_secs = 300;
}

-- A session is bound, found again later, renewed, and has expired in the end.
found_by_refines_example :
    found_by (new 300) (
      (0, bind (bytes "s1") 1)
      ∷ (from_secs 200, renew (bytes "s1"))
      ∷ (from_secs 400, lookup (bytes "s1"))
      ∷ (from_secs 900, lookup (bytes "s1"))
      ∷ [])
    ≡ none ∷ some 1 ∷ some 1 ∷ none ∷ []
unfolding ideal_found_by same
found_by_refines_example =
    found_by_refines 300
      ((0, bind (bytes "s1") 1)
        ∷ (from_secs 200, renew (bytes "s1"))
        ∷ (from_secs 400, lookup (bytes "s1"))
        ∷ (from_secs 900, lookup (bytes "s1"))
        ∷ [])
      (omega arith, (omega arith, (omega arith, (omega arith, tt))))
