-- ===== src/Stats/Groups.antt =====
-- Sums over tables: what grouping rows and merging groups into a table keeps.
use rust_ai_router.Base.{
  ℕ, ◌+◌, ◌≡◌, refl, Bool, true, false, ◌&&◌, none, some, List, [], ◌∷◌, any, keep, if◌then◌else◌,
  Bool-cases, inl, inr, arith,
}
use rust_ai_router.Stats.{upsert, upsert_all, group_all}

module _ {G : Type 0} where
  -- The sum of `n` over the entries that satisfy `p`.
  abbrev pub total : (G → Bool) → (G → ℕ) → List G → ℕ
  total p n [] = 0
  total p n (g ∷ gs) = (if p g then n g else 0) + total p n gs

  pub total-keep :
      (p q : G → Bool) (n : G → ℕ) (gs : List G)
      → total p n (keep q gs) ≡ total (λ g. q g && p g) n gs
  total-keep p q n [] = refl
  total-keep p q n (g ∷ gs) = elim (Bool-cases (q g)) [
    | inl e ↦ rw e (omega (arith, total-keep p q n gs))
    | inr e ↦ rw e (omega (arith, total-keep p q n gs))
  ]

  -- Merging keeps the sum of `n` over the entries that satisfy `p`.
  pub record IsAdditive (same_key : G → G → Bool) (merge : G → G → G) (p : G → Bool) (n : G → ℕ)
      : Type 0 where
    pub alike : (e g : G) → same_key e g ≡ true → p e ≡ p g
    pub kept : (e g : G) → p (merge e g) ≡ p e
    pub added : (e g : G) → n (merge e g) ≡ n e + n g

module _ {G : Type 0} (same_key : G → G → Bool) (merge : G → G → G) (p : G → Bool) (n : G → ℕ)
    (a : IsAdditive same_key merge p n) where
  total-upsert :
      (table : List G) (g : G)
      → total p n (upsert same_key merge table g) ≡ total p n table + (if p g then n g else 0)
  unfolding upsert
  total-upsert [] g = omega arith
  total-upsert (e ∷ table) g = elim (Bool-cases (same_key e g)) [
    | inl h ↦
        rw (h, a.kept e g, a.added e g, a.alike e g h)
          (elim (Bool-cases (p g)) [
            | inl yes_g ↦ rw yes_g (omega arith)
            | inr no_g ↦ rw no_g (omega arith)
          ])
    | inr h ↦ rw h (omega (arith, total-upsert table g))
  ]

  pub total-upsert_all :
      (table gs table' : List G)
      → upsert_all same_key merge table gs ≡ some table'
      → total p n table' ≡ total p n table + total p n gs
  unfolding upsert_all
  total-upsert_all table [] table' h = ground (arith, h)
  total-upsert_all table (g ∷ gs) table' h = elim (Bool-cases (any (same_key g) gs)) [
    | inl e ↦ ground (arith, h, e)
    | inr e ↦ omega (
      arith,
      total-upsert table g,
      total-upsert_all (upsert same_key merge table g) gs table' (rw e at h),
    )
  ]

  pub total-group_all : (gs : List G) → total p n (group_all same_key merge gs) ≡ total p n gs
  unfolding group_all
  total-group_all [] = refl
  total-group_all (g ∷ gs) =
      omega (arith, total-upsert (group_all same_key merge gs) g, total-group_all gs)

any_mono :
    {G : Type 0} (p q : G → Bool)
    → ((e : G) → p e ≡ true → q e ≡ true)
    → (gs : List G) → any p gs ≡ true
    → any q gs ≡ true
any_mono p q h [] some_p = cc
any_mono p q h (g ∷ gs) some_p = elim (Bool-cases (p g)) [
  | inl e ↦ rw (h g e) refl
  | inr e ↦ ground (arith, any_mono p q h gs (ground (arith, some_p, e)))
]

-- A row that was grouped is in one of the groups, and two groups of one key stop the statement.
module _ {G : Type 0} (same_key : G → G → Bool) (merge : G → G → G) (p : G → Bool) where
  any-upsert :
      ((e g : G) → same_key e g ≡ true → p g ≡ true → p (merge e g) ≡ true)
      → ((e g : G) → p e ≡ true → p (merge e g) ≡ true)
      → (table : List G) (g : G)
      → ((p g ≡ true) → any p (upsert same_key merge table g) ≡ true)
        × ((any p table ≡ true) → any p (upsert same_key merge table g) ≡ true)
  unfolding upsert
  any-upsert joins stays [] g = (λ h. rw h refl, λ h. cc)
  any-upsert joins stays (e ∷ table) g =
      let rest = any-upsert joins stays table g in
      elim (Bool-cases (same_key e g)) [
        | inl h ↦ (
          λ here. rw (h, joins e g h here) refl,
          λ there. elim (Bool-cases (p e)) [
            | inl at_e ↦ rw (h, stays e g at_e) refl
            | inr not_e ↦ rw h (ground (arith, there, not_e))
          ],
        )
        | inr h ↦ (
          λ here. rw h (ground (arith, rest.0 here)),
          λ there. rw h (elim (Bool-cases (p e)) [
            | inl at_e ↦ rw at_e refl
            | inr not_e ↦ rw not_e (rest.1 (ground (arith, there, not_e)))
          ]),
        )
      ]

  pub any-group_all :
      ((e g : G) → same_key e g ≡ true → p g ≡ true → p (merge e g) ≡ true)
      → ((e g : G) → p e ≡ true → p (merge e g) ≡ true)
      → (gs : List G) → any p gs ≡ true
      → any p (group_all same_key merge gs) ≡ true
  unfolding group_all
  any-group_all joins stays [] h = cc
  any-group_all joins stays (g ∷ gs) h =
      let step = any-upsert joins stays (group_all same_key merge gs) g in
      elim (Bool-cases (p g)) [
        | inl e ↦ step.0 e
        | inr e ↦ step.1 (any-group_all joins stays gs (ground (arith, h, e)))
      ]

module _ {G : Type 0} (same_key : G → G → Bool) (merge : G → G → G) (p q : G → Bool) where
  pub upsert_all-clash :
      ((e : G) → p e ≡ true → q e ≡ false)
      → ((e g : G) → p e ≡ true → q g ≡ true → (same_key e g ≡ true) × (same_key g e ≡ true))
      → (table gs : List G) → any p gs ≡ true
      → any q gs ≡ true
      → upsert_all same_key merge table gs ≡ none
  unfolding upsert_all
  upsert_all-clash apart clash table [] some_p some_q = cc
  upsert_all-clash apart clash table (g ∷ gs) some_p some_q = elim (Bool-cases (p g)) [
    | inl at_g ↦
        let others : any q gs ≡ true = ground (arith, some_q, apart g at_g) in
        rw (any_mono q (same_key g) (λ e h. (clash g e at_g h).0) gs others) refl
    | inr not_p ↦
        let one : any p gs ≡ true = ground (arith, some_p, not_p) in
        elim (Bool-cases (q g)) [
          | inl at_g ↦ rw (any_mono p (same_key g) (λ e h. (clash e g h at_g).1) gs one) refl
          | inr not_q ↦
              let rest =
                upsert_all-clash apart clash (upsert same_key merge table g) gs one
                  (ground (arith, some_q, not_q)) in
              elim (Bool-cases (any (same_key g) gs)) [ inl e ↦ rw e refl | inr e ↦ rw e rest ]
        ]
  ]
