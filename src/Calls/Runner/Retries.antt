-- ===== src/Calls/Runner/Retries.antt =====
-- The retries of a call as its events report them.
use roboz.Prelude.{ℕ, ◌+◌, ◌<◌, ◌≡◌, ◌≢◌, sym, Bool, true, false, Option, none, some, List, [], ◌∷◌}
use roboz.Calls.Errors.{
  LlmError, is_retryable, error_kind, rate_limit, provider_unavailable, interrupted, cancelled,
  timed_out, auth, insufficient_funds, context_limit, content_filtered, provider_request,
  unknown_provider, client, image_input, output_format, other_llm_error,
}
use roboz.Calls.Runner.{Event, retrying, cannot_supersede}

false≢true : false ≢ true
false≢true e = cc

-- The errors after which another attempt is made.
pub data Transient : LlmError → Type 0 where
  limited : Transient rate_limit
  unavailable : Transient provider_unavailable

pub is_retryable-Transient : (e : LlmError) → is_retryable e ≡ true → Transient e
unfolding is_retryable
is_retryable-Transient rate_limit h = limited
is_retryable-Transient provider_unavailable h = unavailable
is_retryable-Transient interrupted h = absurd (false≢true h)
is_retryable-Transient cancelled h = absurd (false≢true h)
is_retryable-Transient timed_out h = absurd (false≢true h)
is_retryable-Transient auth h = absurd (false≢true h)
is_retryable-Transient insufficient_funds h = absurd (false≢true h)
is_retryable-Transient context_limit h = absurd (false≢true h)
is_retryable-Transient content_filtered h = absurd (false≢true h)
is_retryable-Transient provider_request h = absurd (false≢true h)
is_retryable-Transient unknown_provider h = absurd (false≢true h)
is_retryable-Transient client h = absurd (false≢true h)
is_retryable-Transient image_input h = absurd (false≢true h)
is_retryable-Transient output_format h = absurd (false≢true h)
is_retryable-Transient other_llm_error h = absurd (false≢true h)

-- Output is superseded, where there is any, by a replacement stream.
pub data Superseded {W : Type 0} : Bool → Option (W → W) → Type 0 where
  no_output : {replacement : Option (W → W)} → Superseded false replacement
  by_stream : {abandoned : Bool} (start : W → W) → Superseded abandoned (some start)

pub cannot_supersede-Superseded :
    {W : Type 0} (abandoned : Bool) (replacement : Option (W → W))
    → cannot_supersede abandoned replacement ≡ false
    → Superseded abandoned replacement
cannot_supersede-Superseded abandoned (some start) h = by_stream start
cannot_supersede-Superseded false none h = no_output
cannot_supersede-Superseded true none h = absurd (false≢true (sym h))

-- The events of the retries after an attempt: numbered in their order up to the limit, after a retryable
-- error, and with partial output only when it can be superseded.
pub data Retrying {W : Type 0} (limit : ℕ) (replacement : Option (W → W))
    : ℕ → List Event → Type 0 where
  no_more : {attempt : ℕ} → Retrying limit replacement attempt []
  again :
      {attempt : ℕ} (e : LlmError) {abandoned : Bool} {events : List Event}
      → attempt < limit
      → Transient e
      → Superseded abandoned replacement
      → Retrying limit replacement (attempt + 1) events
      → Retrying limit replacement attempt
          (retrying (attempt + 1) limit (error_kind e) abandoned ∷ events)
