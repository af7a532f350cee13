-- ===== src/Proxy/Stream/Chunks.antt =====
-- src/proxy/handler.rs: what a streamed answer costs depends on its bytes, and not on how the
-- network cuts them.
use rust_ai_router.Base.{
  ℕ, zero, suc, ◌+◌, ◌≤◌, ◌≡◌, refl, sym, ◌∙◌, ap, ◌&&◌, ◌⊎◌, true, false, Option, none, some, List,
  [], ◌∷◌, ◌++◌, Str, length, take, drop, ◌==◌, if◌then◌else◌, arith, Bool-cases, Option-cases, inl,
  inr, length-drop, Float,
}
use mathlib.Core.List.{append-nil, append_assoc}
use rust_ai_router.Config.{AppConfig}
use rust_ai_router.Json.{Json}
use rust_ai_router.Proxy.Attempt.{Prepared}
use rust_ai_router.Proxy.State.{AppState}
use rust_ai_router.RateLimit.Store.{Governor}
use rust_ai_router.Router.Balancer.{SelectedEndpoint}
use rust_ai_router.Sync.{Redis}
use rust_ai_router.Proxy.Stream.{
  StreamUsage, no_usage, find_double_newline, drain_events, feed, feed_all, read_event,
  stream_usage, finish_stream,
}

-- The bytes that arrive.
abbrev pub received : List (Option Str) → Str
received [] = []
received (none ∷ chunks) = received chunks
received (some chunk ∷ chunks) = chunk ++ received chunks

-- The events of a text, each of which an empty line ends; `event` is what has been read of one.
unfoldable pub events_after : Str → Str → List Str
events_after event [] = []
events_after event (c ∷ []) = []
events_after event (c ∷ d ∷ s) =
    let next = events_after [] s in
    let further = events_after (event ++ c ∷ []) (d ∷ s) in
    if c == b'\n' && d == b'\n' then event ∷ next else further

-- The first empty line is at the start, or in the rest.
find-cases :
    (c d : ℕ) (s : Str) (pos : ℕ)
    → find_double_newline (c ∷ d ∷ s) ≡ some pos
    → (((c == b'\n' && d == b'\n') ≡ true) × (pos ≡ 0))
      ⊎ ((p : ℕ) × ((c == b'\n' && d == b'\n') ≡ false)
          × (find_double_newline (d ∷ s) ≡ some p)
          × (pos ≡ suc p))
unfolding find_double_newline
find-cases c d s pos h = elim (Option-cases (find_double_newline (d ∷ s))) [
  | inl e ↦ inl (ground (arith, e))
  | inr (p, e) ↦ elim (Bool-cases (c == b'\n' && d == b'\n')) [
    | inl both ↦ inl (both, ground (arith, e))
    | inr other ↦ inr (p, other, e, ground (arith, e))
  ]
]

pub find-bound : (b : Str) (pos : ℕ) → find_double_newline b ≡ some pos → pos + 2 ≤ length b
unfolding find_double_newline
find-bound [] pos h = ground arith
find-bound (c ∷ []) pos h = ground arith
find-bound (c ∷ d ∷ s) pos h = elim (Option-cases (find_double_newline (d ∷ s))) [
  | inl e ↦ ground (arith, e)
  | inr (p, e) ↦ ground (arith, e, find-bound (d ∷ s) p e)
]

find-append :
    (b c : Str) (pos : ℕ)
    → find_double_newline b ≡ some pos
    → find_double_newline (b ++ c) ≡ some pos
unfolding find_double_newline
find-append [] c pos h = ground arith
find-append (x ∷ []) c pos h = ground arith
find-append (x ∷ y ∷ s) c pos h = elim (Option-cases (find_double_newline (y ∷ s))) [
  | inl e ↦ ground (arith, e)
  | inr (p, e) ↦ ground (arith, e, find-append (y ∷ s) c p e)
]

take-append : (n : ℕ) (b c : Str) → n ≤ length b → take n (b ++ c) ≡ take n b
take-append zero b c h = refl
take-append (suc n) [] c h = absurd (omega arith)
take-append (suc n) (x ∷ b) c h = ap (λ t. x ∷ t) (take-append n b c (omega arith))

drop-append : (n : ℕ) (b c : Str) → n ≤ length b → drop n (b ++ c) ≡ drop n b ++ c
drop-append zero b c h = refl
drop-append (suc n) [] c h = absurd (omega arith)
drop-append (suc n) (x ∷ b) c h = drop-append n b c (omega arith)

-- The search and the scan agree.
events-none : (event b : Str) → find_double_newline b ≡ none → events_after event b ≡ []
unfolding find_double_newline events_after
events-none event [] h = refl
events-none event (c ∷ []) h = refl
events-none event (c ∷ d ∷ s) h = elim (Option-cases (find_double_newline (d ∷ s))) [
  | inl e ↦ ground (arith, e, events-none (event ++ c ∷ []) (d ∷ s) e)
  | inr (p, e) ↦ ground (arith, e)
]

drop-next : (p c : ℕ) (s : Str) → drop (suc p + 2) (c ∷ s) ≡ drop (p + 2) s
drop-next p c s = let e : suc p + 2 ≡ suc (p + 2) = omega arith in ap (λ n. drop n (c ∷ s)) e

events-some :
    (event b : Str) (pos : ℕ)
    → find_double_newline b ≡ some pos
    → events_after event b ≡ (event ++ take pos b) ∷ events_after [] (drop (pos + 2) b)
unfolding find_double_newline events_after
events-some event [] pos h = ground arith
events-some event (c ∷ []) pos h = ground arith
events-some event (c ∷ d ∷ s) pos h = elim (find-cases c d s pos h) [
  | inl (both, at) ↦ rw (at, both) (ap (λ e. e ∷ events_after [] s) (sym (append-nil event)))
  | inr (p, other, e, at) ↦
      rw (at, other)
        (events-some (event ++ c ∷ []) (d ∷ s) p e
          ∙ ap (λ l. l ∷ events_after [] (drop (p + 2) (d ∷ s)))
              (append_assoc event (c ∷ []) (take p (d ∷ s)))
          ∙ ap (λ r. (event ++ c ∷ take p (d ∷ s)) ∷ events_after [] r)
              (sym (drop-next p c (d ∷ s))))
]

module _ (V : Type 0) ⦃json : Json V⦄ where
  -- What is read of the events, in their order.
  unfoldable pub read_events : StreamUsage → List Str → StreamUsage
  read_events u [] = u
  read_events u (event ∷ rest) = read_events (read_event V u event) rest

  drain-stop :
      (n : ℕ) (b : Str) (u : StreamUsage)
      → find_double_newline b ≡ none
      → drain_events V n b u ≡ (b, u)
  unfolding drain_events
  drain-stop zero b u e = refl
  drain-stop (suc n) b u e = rw (drain_events, e) refl

  drain-step :
      (n : ℕ) (b : Str) (u : StreamUsage) (pos : ℕ)
      → find_double_newline b ≡ some pos
      → drain_events V (suc n) b u
        ≡ drain_events V n (drop (pos + 2) b) (read_event V u (take pos b))
  unfolding drain_events
  drain-step n b u pos e = rw (drain_events, e) refl

  shorter :
      (n : ℕ) (b : Str) (pos : ℕ)
      → find_double_newline b ≡ some pos
      → length b ≤ suc n
      → length (drop (pos + 2) b) ≤ n
  shorter n b pos e h = omega (arith, find-bound b pos e, length-drop (pos + 2) b)

  -- With as much fuel as the buffer is long, no event is left in it.
  drain-done :
      (n : ℕ) (b : Str) (u : StreamUsage)
      → length b ≤ n
      → find_double_newline (drain_events V n b u).0 ≡ none
  drain-done zero b u h = elim (Option-cases (find_double_newline b)) [
    | inl e ↦ rw (drain-stop zero b u e) e
    | inr (pos, e) ↦ absurd (omega (arith, find-bound b pos e))
  ]
  drain-done (suc n) b u h = elim (Option-cases (find_double_newline b)) [
    | inl e ↦ rw (drain-stop (suc n) b u e) e
    | inr (pos, e) ↦
        rw (drain-step n b u pos e)
          (drain-done n (drop (pos + 2) b) (read_event V u (take pos b)) (shorter n b pos e h))
  ]

  -- The first event of a buffer is the first one with all that follows.
  drain-events-some :
      (b c : Str) (u : StreamUsage) (pos : ℕ)
      → find_double_newline b ≡ some pos
      → read_events u (events_after [] (b ++ c))
        ≡ read_events (read_event V u (take pos b)) (events_after [] (drop (pos + 2) b ++ c))
  unfolding read_events
  drain-events-some b c u pos e =
      rw
        (
          events-some [] (b ++ c) pos (find-append b c pos e),
          take-append pos b c (omega (arith, find-bound b pos e)),
          drop-append (pos + 2) b c (find-bound b pos e),
        )
        refl

  -- What the drain reads is what the scan finds, whatever follows.
  drain-events :
      (n : ℕ) (b c : Str) (u : StreamUsage)
      → read_events u (events_after [] (b ++ c))
        ≡ read_events (drain_events V n b u).1 (events_after [] ((drain_events V n b u).0 ++ c))
  unfolding drain_events
  drain-events zero b c u = refl
  drain-events (suc n) b c u = elim (Option-cases (find_double_newline b)) [
    | inl e ↦ rw (drain-stop (suc n) b u e) refl
    | inr (pos, e) ↦ rw (drain-step n b u pos e) (
        drain-events-some b c u pos e
        ∙ drain-events n (drop (pos + 2) b) c (read_event V u (take pos b)))
  ]

  -- However the chunks are cut, the counts are those of the events in all the bytes.
  feed_all-events :
      (chunks : List (Option Str)) (b : Str) (u : StreamUsage)
      → find_double_newline b ≡ none
      → (feed_all V b u chunks).1 ≡ read_events u (events_after [] (b ++ received chunks))
  unfolding feed_all feed read_events
  feed_all-events [] b u h = rw (append-nil b, events-none [] b h) refl
  feed_all-events (none ∷ chunks) b u h = feed_all-events chunks b u h
  feed_all-events (some chunk ∷ chunks) b u h =
      let n = length (b ++ chunk) in
      let (rest, u') = drain_events V n (b ++ chunk) u in
      feed_all-events chunks rest u' (drain-done n (b ++ chunk) u (omega arith))
      ∙ sym (drain-events n (b ++ chunk) (received chunks) u)
      ∙ ap (λ s. read_events u (events_after [] s)) (append_assoc b chunk (received chunks))

  -- The token counts of a streamed answer are those of the events in the bytes that arrive, read in
  -- order, an event being what stands before an empty line. How the bytes are cut into chunks, and
  -- the errors between the chunks, do not matter.
  pub stream_usage-events :
      (chunks : List (Option Str))
      → stream_usage V chunks ≡ read_events no_usage (events_after [] (received chunks))
  unfolding stream_usage
  stream_usage-events chunks = feed_all-events chunks [] no_usage refl

module _ (V : Type 0) {F G R : Type 0} ⦃json : Json V⦄ ⦃fl : Float F⦄ ⦃gov : Governor G⦄
    ⦃redis : Redis R⦄ where
  -- Two streams of the same bytes leave the limiters, and all else, in the same state.
  pub finish_stream-cut :
      (cfg : AppConfig F) (p : Prepared) (ep : SelectedEndpoint F) (app : AppState F G R)
      (chunks other : List (Option Str)) (now unix : ℕ)
      → received chunks ≡ received other
      → finish_stream V cfg p ep app chunks now unix ≡ finish_stream V cfg p ep app other now unix
  unfolding finish_stream
  finish_stream-cut cfg p ep app chunks other now unix e =
      rw (stream_usage-events V chunks, stream_usage-events V other, e) refl
