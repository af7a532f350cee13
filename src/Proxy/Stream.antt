-- ===== src/Proxy/Stream.antt =====
-- src/proxy/handler.rs: the task that a streamed answer spawns, in `proxy_handler` and again in
-- `proxy_generic`. It hands each chunk on, and reads the token counts from the events.
pub mod Chunks
use rust_ai_router.Base.{
  ℕ, zero, suc, ◌+◌, Bool, true, false, Option, none, some, List, [], ◌∷◌, ◌++◌, Str, bytes,
  strip_prefix, from_utf8_lossy, length, take, drop, and_then, map_opt, get_or, ◌==◌, if◌then◌else◌,
  Float,
}
use rust_ai_router.Config.{AppConfig}
use rust_ai_router.Json.{Json, member, u64_member}
use rust_ai_router.Proxy.Attempt.{Prepared, saturating_add, consume_usage}
use rust_ai_router.Proxy.State.{AppState}
use rust_ai_router.RateLimit.Store.{Governor}
use rust_ai_router.Sync.{Redis}
use rust_ai_router.Router.Balancer.{SelectedEndpoint}

-- `find_double_newline`
unfoldable pub find_double_newline : Str → Option ℕ
find_double_newline [] = none
find_double_newline (c ∷ []) = none
find_double_newline (c ∷ d ∷ s) =
    if c == b'\n'
    then (if d == b'\n' then some 0 else map_opt suc (find_double_newline (d ∷ s)))
    else map_opt suc (find_double_newline (d ∷ s))

-- `str::lines`: a line ends at a newline, a carriage return before which is dropped. What comes
-- after the last newline is a line unless it is empty.
unfoldable pub end_line : Str → Str
end_line [] = []
end_line (c ∷ []) = if c == b'\r' then [] else c ∷ []
end_line (c ∷ d ∷ s) = c ∷ end_line (d ∷ s)

unfoldable pub lines_after : Str → Str → List Str
unfolding end_line
lines_after [] [] = []
lines_after (c ∷ line) [] = (c ∷ line) ∷ []
lines_after line (c ∷ s) =
    let next = lines_after [] s in
    let same_line = lines_after (line ++ c ∷ []) s in
    if c == b'\n' then end_line line ∷ next else same_line

unfoldable pub lines : Str → List Str
unfolding lines_after
lines s = lines_after [] s

-- `usage_prompt` and `usage_completion`
pub record StreamUsage : Type 0 where
  pub usage_prompt : ℕ
  pub usage_completion : ℕ

abbrev pub no_usage : StreamUsage
no_usage = record { usage_prompt = 0; usage_completion = 0 }

module _ (V : Type 0) ⦃json : Json V⦄ where
  -- One line of an event: a count that is there takes the place of the one before.
  unfoldable pub read_line : StreamUsage → Str → StreamUsage
  read_line u line =
      let usage =
        and_then (strip_prefix (bytes "data: ") line)
          (λ text. and_then (json.from_slice text) (λ v. member v (bytes "usage"))) in
      record {
        usage_prompt =
            get_or (and_then usage (λ v. u64_member v (bytes "prompt_tokens"))) u.usage_prompt;
        usage_completion =
            get_or (and_then usage (λ v. u64_member v (bytes "completion_tokens")))
              u.usage_completion;
      }

  unfoldable pub read_lines : StreamUsage → List Str → StreamUsage
  unfolding read_line
  read_lines u [] = u
  read_lines u (line ∷ rest) = read_lines (read_line u line) rest

  unfoldable pub read_event : StreamUsage → Str → StreamUsage
  unfolding read_lines
  read_event u event_bytes = read_lines u (lines (from_utf8_lossy event_bytes))

  -- `while let Some(pos) = find_double_newline(&buffer)`, as far as the fuel goes: what is left
  -- of the buffer, and the counts.
  unfoldable pub drain_events : ℕ → Str → StreamUsage → Str × StreamUsage
  unfolding read_event find_double_newline
  drain_events zero buffer u = (buffer, u)
  drain_events (suc fuel) buffer u = elim (find_double_newline buffer) [
    | none ↦ (buffer, u)
    | some pos ↦ drain_events fuel (drop (pos + 2) buffer) (read_event u (take pos buffer))
  ]

  -- One chunk, which may be an error. An event takes two bytes at least, so that the length of the
  -- buffer is fuel enough.
  unfoldable pub feed : Str → StreamUsage → Option Str → Str × StreamUsage
  unfolding drain_events
  feed buffer u none = (buffer, u)
  feed buffer u (some chunk) = drain_events (length (buffer ++ chunk)) (buffer ++ chunk) u

  unfoldable pub feed_all : Str → StreamUsage → List (Option Str) → Str × StreamUsage
  unfolding feed
  feed_all buffer u [] = (buffer, u)
  feed_all buffer u (chunk ∷ rest) =
      let (buffer', u') = feed buffer u chunk in feed_all buffer' u' rest

  -- The counts when the stream has ended.
  unfoldable pub stream_usage : List (Option Str) → StreamUsage
  unfolding feed_all
  stream_usage chunks = (feed_all [] no_usage chunks).1

module _ (V : Type 0) {F G R : Type 0} ⦃json : Json V⦄ ⦃fl : Float F⦄ ⦃gov : Governor G⦄
    ⦃redis : Redis R⦄ where
  -- The end of the task: the deduction from the three budgets, when the stream has ended.
  unfoldable pub finish_stream :
      AppConfig F
      → Prepared
      → SelectedEndpoint F
      → AppState F G R
      → List (Option Str)
      → ℕ
      → ℕ
      → AppState F G R
  unfolding stream_usage consume_usage
  finish_stream cfg p ep app chunks now unix =
      let u = stream_usage V chunks in
      consume_usage cfg p ep app (saturating_add u.usage_prompt u.usage_completion) now unix
