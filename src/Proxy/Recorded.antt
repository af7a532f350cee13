-- ===== src/Proxy/Recorded.antt =====
-- src/proxy/handler.rs: the rows of the statistics that the two handlers write for an answer, each in
-- a task of its own, and what comes of those of `proxy_generic`. `executed` is whether the server
-- inserts the row, and `hash` prints the hash of a token, which the standard library makes.
pub mod Stuck
use rust_ai_router.Base.{ℕ, Bool, none, some, Str, Float, if◌then◌else◌}
use rust_ai_router.Proxy.Attempt.{Prepared}
use rust_ai_router.Proxy.Response.{Given, own_answer, translated_answer, kept_answer}
use rust_ai_router.Router.Balancer.{SelectedEndpoint}
use rust_ai_router.Stats.{StatsWriter, record_request}

module _ {F : Type 0} ⦃fl : Float F⦄ where
  -- The tokens of a streamed answer are not known here. A translated answer is returned before the
  -- row is written, and a kept one is not written.
  unfoldable pub chat_recorded :
      (Str → Str)
      → Prepared
      → SelectedEndpoint F
      → Given
      → ℕ × ℕ
      → ℕ
      → ℕ
      → Bool
      → ℕ
      → StatsWriter F
      → StatsWriter F
  unfolding record_request
  chat_recorded hash p ep given tokens latency_ms status executed now w =
      let (prompt, completion) = if p.is_stream then (0, 0) else tokens in
      elim given [
        | translated_answer ↦ w
        | kept_answer ↦ w
        | own_answer ↦
            record_request p.canonical_model ep.url p.team prompt completion latency_ms status
              (some (hash p.token_key)) ep.cost_prompt ep.cost_completion executed now w
      ]

  -- A streamed answer is not written, and no row names its token.
  unfoldable pub generic_recorded :
      Prepared → SelectedEndpoint F → ℕ × ℕ → ℕ → ℕ → Bool → ℕ → StatsWriter F → StatsWriter F
  unfolding record_request
  generic_recorded p ep (prompt, completion) latency_ms status executed now w =
      if p.is_stream
      then w
      else record_request p.canonical_model ep.url p.team prompt completion latency_ms status none
          ep.cost_prompt ep.cost_completion executed now w
