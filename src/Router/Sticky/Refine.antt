-- ===== src/Router/Sticky/Refine.antt =====
-- The sticky store refines a map of bindings that never drops one: what has expired is not seen,
-- and when the store removes it makes no difference.
use rust_ai_router.Base.{
  ℕ, ◌-◌, ◌≤◌, ◌≡◌, refl, sym, ◌∙◌, as_secs, Option, none, some, List, [], ◌∷◌, Str, same, ltb,
  if◌then◌else◌, arith, Bool-cases, Option-cases, inl, inr,
}
use rust_ai_router.Base.Dict
use rust_ai_router.Base.Dict.{Dict, Distinct, put-Distinct, remove-Distinct, retain-Distinct}
use rust_ai_router.Router.Sticky.{
  SessionStickyStore, StickyEntry, alive, new, get, set, touch, cleanup,
}
use rust_ai_router.Router.Sticky.Laws.{seen, seen-set, seen-get, seen-touch, seen-cleanup}

-- The ways in which the handler uses the store. A session is only renewed after it has been found.
pub data Use : Type 0 where
  lookup renew : Str → Use
  bind : Str → ℕ → Use
  sweep : Use

-- One use, with what it finds.
unfoldable pub step : SessionStickyStore → Use → ℕ → Option ℕ × SessionStickyStore
unfolding get touch
step store (lookup sid) now = get store sid now
step store (bind sid index) now = (none, set store sid index now)
step store sweep now = (none, cleanup store now)
step store (renew sid) now =
    let (found, store') = get store sid now in
    (found, elim found [ none ↦ store' | some i ↦ touch store' sid now ])

unfoldable pub found_by : SessionStickyStore → List (ℕ × Use) → List (Option ℕ)
unfolding step
found_by store [] = []
found_by store ((now, u) ∷ uses) =
    let (found, store') = step store u now in found ∷ found_by store' uses

-- The map: the binding of each session, however old.
abbrev pub Bindings : Type 0
Bindings = Str → Option StickyEntry

abbrev pub current : ℕ → Bindings → Str → ℕ → Option ℕ
current ttl b sid now = elim (b sid) [
  | none ↦ none
  | some entry ↦ if alive ttl now entry then some entry.endpoint_index else none
]

abbrev pub rebind : Bindings → Str → ℕ → ℕ → Bindings
rebind b sid index now = λ other.
    if same sid other then some (record { endpoint_index = index; last_access = now }) else b other

unfoldable pub ideal_step : ℕ → Bindings → Use → ℕ → Option ℕ × Bindings
ideal_step ttl b (lookup sid) now = (current ttl b sid now, b)
ideal_step ttl b (bind sid index) now = (none, rebind b sid index now)
ideal_step ttl b sweep now = (none, b)
ideal_step ttl b (renew sid) now =
    (current ttl b sid now, elim (current ttl b sid now) [ none ↦ b | some i ↦ rebind b sid i now ])

unfoldable pub ideal_found_by : ℕ → Bindings → List (ℕ × Use) → List (Option ℕ)
unfolding ideal_step
ideal_found_by ttl b [] = []
ideal_found_by ttl b ((now, u) ∷ uses) =
    let (found, b') = ideal_step ttl b u now in found ∷ ideal_found_by ttl b' uses

-- The times of the uses do not go back.
abbrev pub InOrder : ℕ → List (ℕ × Use) → Type 0
InOrder start [] = Unit
InOrder start ((now, u) ∷ uses) = (start ≤ now) × InOrder now uses

current-rebind :
    (ttl : ℕ) (b : Bindings) (sid other : Str) (index now later : ℕ)
    → current ttl (rebind b sid index now) other later ≡ (
        if same sid other
        then (if ltb (as_secs (later - now)) ttl then some index else none)
        else current ttl b other later)
current-rebind ttl b sid other index now later = elim (Bool-cases (same sid other)) [
  | inl e ↦ rw (current, rebind, e) refl
  | inr e ↦ rw (current, rebind, e) refl
]

-- From `now` on, both see the same.
record Agrees (ttl : ℕ) (store : SessionStickyStore) (b : Bindings) (now : ℕ) : Type 0 where
  lives : store.ttl_secs ≡ ttl
  distinct : Distinct store.sessions
  view : (sid : Str) (later : ℕ) → now ≤ later → seen store sid later ≡ current ttl b sid later

get-lives :
    (store : SessionStickyStore) (sid : Str) (now : ℕ)
    → (get store sid now).1.ttl_secs ≡ store.ttl_secs
unfolding get
get-lives store sid now = grind arith

get-Distinct :
    (store : SessionStickyStore) (sid : Str) (now : ℕ)
    → Distinct store.sessions
    → Distinct (get store sid now).1.sessions
unfolding get
get-Distinct store sid now h = grind (arith, remove-Distinct store.sessions sid h)

module _ (ttl : ℕ) where
  get-Agrees :
      (store : SessionStickyStore) (b : Bindings) (sid : Str) (start now : ℕ)
      → start ≤ now
      → Agrees ttl store b start
      → Agrees ttl (get store sid now).1 b now
  get-Agrees store b sid start now h agrees = record {
    lives = get-lives store sid now ∙ agrees.lives;
    distinct = get-Distinct store sid now agrees.distinct;
    view = λ other later e.
        seen-get store sid other now later e ∙ agrees.view other later (omega (arith, h, e));
  }

  set-Agrees :
      (store : SessionStickyStore) (b : Bindings) (sid : Str) (index start now : ℕ)
      → start ≤ now
      → Agrees ttl store b start
      → Agrees ttl (set store sid index now) (rebind b sid index now) now
  unfolding set
  set-Agrees store b sid index start now h agrees = record {
    lives = agrees.lives;
    distinct =
        put-Distinct store.sessions sid (record { endpoint_index = index; last_access = now })
          agrees.distinct;
    view = λ other later e.
        rw
          (
            seen-set store sid other index now later,
            current-rebind ttl b sid other index now later,
            agrees.view other later (omega (arith, h, e)),
            agrees.lives,
          )
          refl;
  }

  cleanup-Agrees :
      (store : SessionStickyStore) (b : Bindings) (start now : ℕ)
      → start ≤ now
      → Agrees ttl store b start
      → Agrees ttl (cleanup store now) b now
  unfolding cleanup
  cleanup-Agrees store b start now h agrees = record {
    lives = agrees.lives;
    distinct = retain-Distinct (alive store.ttl_secs now) store.sessions agrees.distinct;
    view = λ other later e.
        seen-cleanup store other now later agrees.distinct e
        ∙ agrees.view other later (omega (arith, h, e));
  }

  -- What is found is an entry that is alive, and finding it changes nothing.
  found_entry :
      (store : SessionStickyStore) (sid : Str) (now index : ℕ)
      → (get store sid now).0 ≡ some index
      → (entry : StickyEntry) × (Dict.get store.sessions sid ≡ some entry)
        × (entry.endpoint_index ≡ index)
        × ((get store sid now).1 ≡ store)
  unfolding get
  found_entry store sid now index found = elim (Option-cases (Dict.get store.sessions sid)) [
    | inl e ↦ absurd (ground (arith, e))
    | inr (entry, e) ↦ (entry, e, ground (arith, e), ground (arith, e))
  ]

  touch-Agrees :
      (store : SessionStickyStore) (b : Bindings) (sid : Str) (entry : StickyEntry) (start now : ℕ)
      → start ≤ now
      → Dict.get store.sessions sid ≡ some entry
      → Agrees ttl store b start
      → Agrees ttl (touch store sid now) (rebind b sid entry.endpoint_index now) now
  unfolding touch
  touch-Agrees store b sid entry start now h there agrees = record {
    lives = rw (touch, there) agrees.lives;
    distinct =
        rw (touch, there)
          (put-Distinct store.sessions sid (record entry { last_access = now }) agrees.distinct);
    view = λ other later e.
        rw
          (
            seen-touch store sid other now later entry there,
            current-rebind ttl b sid other entry.endpoint_index now later,
            agrees.view other later (omega (arith, h, e)),
            agrees.lives,
          )
          refl;
  }

  renew-Agrees :
      (store : SessionStickyStore) (b : Bindings) (sid : Str) (start now : ℕ)
      → start ≤ now
      → Agrees ttl store b start
      → ((step store (renew sid) now).0 ≡ (ideal_step ttl b (renew sid) now).0)
        × Agrees ttl (step store (renew sid) now).1 (ideal_step ttl b (renew sid) now).1 now
  unfolding step ideal_step
  renew-Agrees store b sid start now h agrees =
      let view = agrees.view sid now h in
      elim (Option-cases (get store sid now).0) [
        | inl e ↦
            let unseen : current ttl b sid now ≡ none = sym view ∙ e in
            rw (step, ideal_step, e, unseen) (refl, get-Agrees store b sid start now h agrees)
        | inr (i, e) ↦
            let known : current ttl b sid now ≡ some i = sym view ∙ e in
            let (entry, there, at, kept) = found_entry store sid now i e in
            rw (step, ideal_step, e, known, kept, ← at)
              (refl, touch-Agrees store b sid entry start now h there agrees)
      ]

  step-Agrees :
      (store : SessionStickyStore) (b : Bindings) (u : Use) (start now : ℕ)
      → start ≤ now
      → Agrees ttl store b start
      → ((step store u now).0 ≡ (ideal_step ttl b u now).0)
        × Agrees ttl (step store u now).1 (ideal_step ttl b u now).1 now
  unfolding step ideal_step
  step-Agrees store b (lookup sid) start now h agrees =
      (agrees.view sid now h, get-Agrees store b sid start now h agrees)
  step-Agrees store b (bind sid index) start now h agrees =
      (refl, set-Agrees store b sid index start now h agrees)
  step-Agrees store b sweep start now h agrees = (refl, cleanup-Agrees store b start now h agrees)
  step-Agrees store b (renew sid) start now h agrees = renew-Agrees store b sid start now h agrees

  found_by-Agrees :
      (uses : List (ℕ × Use)) (store : SessionStickyStore) (b : Bindings) (start : ℕ)
      → InOrder start uses
      → Agrees ttl store b start
      → found_by store uses ≡ ideal_found_by ttl b uses
  unfolding found_by ideal_found_by
  found_by-Agrees [] store b start order agrees = refl
  found_by-Agrees ((now, u) ∷ uses) store b start order agrees =
      let (same_found, after) = step-Agrees store b u start now order.0 agrees in
      let rest =
        found_by-Agrees uses (step store u now).1 (ideal_step ttl b u now).1 now order.1 after in
      λ i. same_found i ∷ rest i

seen-new : (ttl : ℕ) (sid : Str) (later : ℕ) → seen (new ttl) sid later ≡ none
unfolding new get Dict.get
seen-new ttl sid later = refl

-- Over any uses in the order of time, a new store finds what the map finds that never drops a
-- binding, and in which a binding holds while it is younger than the time to live.
pub found_by_refines :
    (ttl : ℕ) (uses : List (ℕ × Use))
    → InOrder 0 uses
    → found_by (new ttl) uses ≡ ideal_found_by ttl (λ sid. none) uses
unfolding new
found_by_refines ttl uses order =
    found_by-Agrees ttl uses (new ttl) (λ sid. none) 0 order
      (record { lives = refl; distinct = tt; view = λ sid later e. seen-new ttl sid later })
