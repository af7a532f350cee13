-- ===== src/Keys/Clash.antt =====
-- The two ways to mask a key.
use rust_ai_router.Base.{
  ℕ, ◌+◌, ◌-◌, ◌≤◌, ◌≡◌, refl, ap, ◌↔◌, inl, inr, Str, bytes, length, length-append, length-drop,
  take, drop, ◌++◌, leb, Bool-cases, if◌then◌else◌, List, [], ◌∷◌, zero, suc, arith,
}
use rust_ai_router.Config.{EndpointConfig}
use rust_ai_router.Keys.{mask_key, mask_key_short, router_key, endpoint_key, ends_of}

length-take {ℓ} : {A : Type ℓ} (n : ℕ) (xs : List A) → n ≤ length xs → length (take n xs) ≡ n
length-take zero xs h = refl
length-take (suc n) [] h = absurd (omega arith)
length-take (suc n) (x ∷ xs) h = ap suc (length-take n xs (omega arith))

length-ends_of : (n : ℕ) (key : Str) → n ≤ length key → length (ends_of n key) ≡ n + (3 + n)
length-ends_of n key h =
    let a = length-append (take n key ++ bytes "...") (drop (length key - n) key) in
    let b = length-append (take n key) (bytes "...") in
    let c = length-take n key h in let d = length-drop (length key - n) key in omega arith

append-cancel : (a b c : Str) → a ++ b ≡ a ++ c → length b ≡ length c
append-cancel a b c e =
    let l = ap length e in let x = length-append a b in let y = length-append a c in omega arith

length-mask_key : (key : Str) → length (mask_key key) ≡ (if leb (length key) 8 then 3 else 11)
unfolding mask_key
length-mask_key key = elim (Bool-cases (leb (length key) 8)) [
  | inl e ↦ rw (e)
  | inr e ↦ ground (arith, length-ends_of 4 key)
]

length-mask_key_short :
    (key : Str) → length (mask_key_short key) ≡ (if leb (length key) 6 then 3 else 9)
unfolding mask_key_short
length-mask_key_short key = elim (Bool-cases (leb (length key) 6)) [
  | inl e ↦ rw (e)
  | inr e ↦ ground (arith, length-ends_of 3 key)
]

masks_differ : (key : Str) → length (mask_key_short key) ≡ length (mask_key key) → length key ≤ 6
masks_differ key h =
    let a = length-mask_key key in let b = length-mask_key_short key in ground arith

masks_agree : (key : Str) → length key ≤ 6 → mask_key_short key ≡ mask_key key
unfolding mask_key mask_key_short
masks_agree key h = ground arith

module _ {F : Type 0} where
  -- The router and the handler know an endpoint by the same key exactly when its API key has at
  -- most six bytes.
  pub router_key-endpoint_key_iff :
      (ep : EndpointConfig F) → (router_key ep ≡ endpoint_key ep) ↔ (length ep.key ≤ 6)
  unfolding router_key endpoint_key
  router_key-endpoint_key_iff ep = (
    (λ e. masks_differ ep.key (append-cancel (ep.url ++ bytes ":") _ _ e)),
    (λ h. ap (λ k. ep.url ++ bytes ":" ++ k) (masks_agree ep.key h)),
  )
