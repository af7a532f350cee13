-- ===== src/Router/Sticky/Laws.antt =====
-- The contract of the sticky store: a binding lives for the time to live after it was last set or
-- touched, and no operation changes what another session sees.
use rust_ai_router.Base.{
  ℕ, ◌-◌, ◌≤◌, ◌≡◌, as_secs, Option, none, some, Str, same, same_iff, ltb, if◌then◌else◌, arith,
}
use rust_ai_router.Base.Dict
use rust_ai_router.Base.Dict.{Dict, Distinct, get-put, get-remove, get-retain}
use rust_ai_router.Router.Sticky.{SessionStickyStore, StickyEntry, alive, get, set, touch, cleanup}

-- What a session sees at a time.
abbrev pub seen : SessionStickyStore → Str → ℕ → Option ℕ
seen store sid now = (get store sid now).0

-- After `set`, the session sees its index until the time to live has run out, and every other
-- session sees what it saw.
pub seen-set :
    (store : SessionStickyStore) (sid other : Str) (index now later : ℕ)
    → seen (set store sid index now) other later ≡ (
        if same sid other
        then (if ltb (as_secs (later - now)) store.ttl_secs then some index else none)
        else seen store other later)
unfolding get set
seen-set store sid other index now later =
    ground (
      arith,
      get-put store.sessions sid other (record { endpoint_index = index; last_access = now }),
    )

-- `touch` starts the time to live of a bound session again, binds no new one, and leaves the others.
pub seen-touch :
    (store : SessionStickyStore) (sid other : Str) (now later : ℕ) (entry : StickyEntry)
    → Dict.get store.sessions sid ≡ some entry
    → seen (touch store sid now) other later ≡ (
        if same sid other
        then (if ltb (as_secs (later - now)) store.ttl_secs
            then some entry.endpoint_index
            else none)
        else seen store other later)
unfolding get touch
seen-touch store sid other now later entry h = ground (
  arith,
  same_iff sid other,
  get-put store.sessions sid other (record entry { last_access = now }),
)

-- Reading a session, which drops it when it has expired, changes no reading from then on.
pub seen-get :
    (store : SessionStickyStore) (sid other : Str) (now later : ℕ)
    → now ≤ later
    → seen (get store sid now).1 other later ≡ seen store other later
unfolding get
seen-get store sid other now later h =
    ground (arith, same_iff sid other, get-remove store.sessions sid other)

-- A cleanup changes no reading from then on. (Each session stands once in the store.)
pub seen-cleanup :
    (store : SessionStickyStore) (sid : Str) (now later : ℕ)
    → Distinct store.sessions
    → now ≤ later
    → seen (cleanup store now) sid later ≡ seen store sid later
unfolding get cleanup
seen-cleanup store sid now later d h =
    ground (arith, get-retain (alive store.ttl_secs now) store.sessions sid d)
