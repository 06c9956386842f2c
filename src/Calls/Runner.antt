-- ===== src/Calls/Runner.antt =====
-- llm/calls.py, `_LLMCallRunner.run` on an endpoint that is no mock: the attempts with their retries,
-- and the events that report the call.
pub mod Retries
pub mod Logged
pub mod Reports
use roboz.Prelude.{
  ℕ, suc, ◌+◌, ◌&&◌, Bool, true, false, Option, none, some, List, [], ◌∷◌, ◌++◌, if◌then◌else◌,
  Result, ok, err,
}
use roboz.Prelude.Text.{Text, codes, text_eq}
use roboz.Retry.{
  Timing, Settings, Outcome, returned, retryable, fatal, End, value, failed, signalled,
  PrepareRetry, Run, run_with_retry,
}
use roboz.Calls.Diagnostics.{Diagnostics}
use roboz.Calls.Stream.{Completion}
use roboz.Calls.Errors.{
  LlmError, CallError, llm_error, call_interrupted, call_cancelled, content_filtered,
  classify_call_error, is_retryable, observed_llm_failure, ErrorKind, error_kind, ObservedFailure,
}

-- The events of a call for its pipe; without a pipe they are dropped.
pub data Event : Type 0 where
  started succeeded : Event
  retrying : (attempt max_attempts : ℕ) → ErrorKind → (partial_output_abandoned : Bool) → Event
  ended : ObservedFailure → ErrorKind → Event

-- What an external call raises: an Exception, or an exception beside that class, such as a
-- KeyboardInterrupt, by its number.
pub data Raised : Type 0 where
  exception : CallError → Raised
  base_exception : ℕ → Raised

-- What a call raises.
pub data Failure : Type 0 where
  llm_failure : LlmError → Failure
  base_failure : ℕ → Failure

-- The exception type of a control signal.
pub data Signal : Type 0 where
  interrupts cancels : Signal

pub record State (W : Type 0) : Type 0 where
  pub world : W
  pub events : List Event

abbrev pub emit_event : {W : Type 0} → Event → State W → State W
emit_event event state = record state { events = state.events ++ event ∷ [] }

-- `raise_if_set`
abbrev pub error_of : Signal → CallError
error_of interrupts = call_interrupted
error_of cancels = call_cancelled

abbrev pub timing_of : {W : Type 0} → Timing W Signal → Timing (State W) Signal
timing_of timing = record {
  now = λ state. timing.now state.world;
  set_signal = λ state. timing.set_signal state.world;
  sleep = λ time state. record state { world = timing.sleep time state.world };
}

-- The clauses `except` of an attempt.
unfoldable pub outcome_of :
    {V : Type 0} → Result Raised (Completion V) → Outcome (Completion V) Failure
unfolding is_retryable classify_call_error
outcome_of (ok completion) = returned completion
outcome_of (err (exception e)) =
    let error = classify_call_error e in
    if is_retryable error then retryable (llm_failure error) else fatal (llm_failure error)
outcome_of (err (base_exception b)) = fatal (base_failure b)

-- `attempt_abandoned.set()`, whatever is raised.
abbrev pub abandoned_if : {W V : Type 0} → Result Raised (Completion V) → (W → W) → W → W
abandoned_if (ok completion) set_abandoned w = w
abandoned_if (err e) set_abandoned w = set_abandoned w

abbrev pub attempted :
    {W V : Type 0}
    → (W → W)
    → List Event
    → (Result Raised (Completion V) × Bool) × W
    → (Outcome (Completion V) Failure × Bool) × State W
attempted set_abandoned events ((result, emitted), w) = (
  (outcome_of result, emitted),
  record { world = abandoned_if result set_abandoned w; events = events },
)

abbrev pub superseded : {W : Type 0} → Bool → Option (W → W) → State W → State W
superseded false replacement state = state
superseded true none state = state
superseded true (some start) state = record state { world = start state.world }

abbrev pub cannot_supersede : {W : Type 0} → Bool → Option (W → W) → Bool
cannot_supersede emitted none = emitted
cannot_supersede emitted (some start) = false

-- What a call returns or raises, and its state.
abbrev pub Reported : (W V : Type 0) → Type 0
Reported W V = Result Failure (Completion V) × State W

unfoldable pub report_failed : {W V : Type 0} → LlmError → State W → Reported W V
unfolding observed_llm_failure error_kind
report_failed e state =
    (err (llm_failure e), emit_event (ended (observed_llm_failure e) (error_kind e)) state)

-- `_raise_for_content_filter`
abbrev pub is_filtered : {V : Type 0} → Completion V → Bool
is_filtered completion = elim completion.diagnostics.finish_reason [
  | none ↦ false
  | some reason ↦ text_eq reason (codes "content_filter")
]

module _ {W V : Type 0} (timing : Timing W Signal) (settings : Settings)
    -- `start_replacement_stream`
    (start_replacement_stream : Option (W → W))
    -- `run_cancellable_external_call` of the n-th attempt, with its `output_emitted`
    (external_call : ℕ → W → (Result Raised (Completion V) × Bool) × W)
    -- `attempt_abandoned.set()` of the n-th attempt
    (set_abandoned : ℕ → W → W) where
  -- `_run_attempt`
  unfoldable pub run_attempt : ℕ → State W → (Outcome (Completion V) Failure × Bool) × State W
  unfolding outcome_of
  run_attempt attempt state =
      attempted (set_abandoned attempt) state.events (external_call attempt state.world)

  -- `_prepare_retry`, which is asked only about an LLMError
  unfoldable pub prepare_retry : PrepareRetry (State W) Failure
  unfolding error_kind
  prepare_retry (base_failure b) failed_attempt attempt_limit emitted state = (false, state)
  prepare_retry (llm_failure e) failed_attempt attempt_limit emitted state =
      if cannot_supersede emitted start_replacement_stream then (false, state) else (
        true,
        superseded emitted start_replacement_stream
            (emit_event (retrying (failed_attempt + 1) attempt_limit (error_kind e) emitted) state),
      )

  abbrev pub unless_signal : Option Signal → Completion V → State W → Reported W V
  unless_signal none completion state = (ok completion, emit_event succeeded state)
  unless_signal (some signal) completion state =
      report_failed (classify_call_error (error_of signal)) state

  unfoldable pub after_completion : Completion V → State W → Reported W V
  unfolding report_failed classify_call_error
  after_completion completion state =
      if is_filtered completion
      then report_failed content_filtered state
      else unless_signal (timing.set_signal state.world) completion state

  -- Only an Exception is reported.
  unfoldable pub after_end : End (Completion V) Failure Signal → State W → Reported W V
  unfolding after_completion
  after_end (value completion) state = after_completion completion state
  after_end (failed (llm_failure e)) state = report_failed e state
  after_end (failed (base_failure b)) state = (err (base_failure b), state)
  after_end (signalled signal) state = report_failed (classify_call_error (error_of signal)) state

  unfoldable pub attempts :
      (fuel rounds : ℕ) → State W → Option (End (Completion V) Failure Signal × List Bool × State W)
  unfolding run_with_retry run_attempt prepare_retry
  attempts fuel rounds state =
      run_with_retry (timing_of timing) settings (some prepare_retry) run_attempt fuel rounds state

  abbrev pub after_attempts :
      Option (End (Completion V) Failure Signal × List Bool × State W) → Option (Reported W V)
  after_attempts none = none
  after_attempts (some (end, emitted, state)) = some (after_end end state)

  -- `run`, when the request has been built or is refused. Fuel is for the attempts and the rounds of
  -- a pause.
  unfoldable pub run : (fuel rounds : ℕ) → Option LlmError → W → Option (Reported W V)
  unfolding attempts after_end
  run fuel rounds none w =
      after_attempts (attempts fuel rounds (record { world = w; events = started ∷ [] }))
  run fuel rounds (some refused) w =
      some (report_failed refused (record { world = w; events = started ∷ [] }))
