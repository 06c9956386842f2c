-- ===== src/Calls/Runner/Reports.antt =====
-- The reports of a call: it starts, its retries are numbered, and it succeeds or ends with a failure.
use roboz.Prelude.{
  ℕ, ◌≤◌, ◌<◌, ◌≡◌, ◌≢◌, inl, inr, refl, sym, Bool, false, Option, none, some, List, [], ◌∷◌, ◌++◌,
  Result, ok, err, Bool-cases, Option-cases,
}
use roboz.Retry.{Timing, Settings, End, value, failed, signalled, run_with_retry}
use roboz.Retry.Backoff.{SleepsEnough}
use roboz.Retry.Attempts.{Ends, run_with_retry-Ends}
use roboz.Calls.Stream.{Completion}
use roboz.Calls.Errors.{LlmError, error_kind, observed_llm_failure, content_filtered}
use roboz.Calls.Runner.{
  Event, started, succeeded, ended, Raised, base_exception, Failure, llm_failure, base_failure,
  Signal, State, timing_of, run_attempt, prepare_retry, Reported, report_failed, is_filtered,
  after_completion, after_end, attempts, after_attempts, run,
}
use roboz.Calls.Runner.Logged.{Comes, from_value, from_base, Logged, logged, retry_from-Logged}
use roboz.Calls.Runner.Retries.{Retrying, no_more}

-- A result of a call with its events: it succeeds with what an attempt returned, when that is not
-- filtered and no signal is set; or it ends with the failure of an LLMError; or an attempt has
-- raised what is no Exception, and that is raised, with no report.
pub data Reports {W V : Type 0} (timing : Timing W Signal) (limit : ℕ)
    (replacement : Option (W → W))
    (external_call : ℕ → W → (Result Raised (Completion V) × Bool) × W)
    : Reported W V → Type 0 where
  succeeds :
      {completion : Completion V} {state : State W} (retries : List Event) (attempt : ℕ) (w : W)
      → Retrying limit replacement 1 retries
      → (external_call attempt w).0.0 ≡ ok completion
      → is_filtered completion ≡ false
      → timing.set_signal state.world ≡ none
      → state.events ≡ started ∷ (retries ++ succeeded ∷ [])
      → Reports timing limit replacement external_call (ok completion, state)
  fails :
      {e : LlmError} {state : State W} (retries : List Event)
      → Retrying limit replacement 1 retries
      → state.events ≡ started ∷ (retries ++ ended (observed_llm_failure e) (error_kind e) ∷ [])
      → Reports timing limit replacement external_call (err (llm_failure e), state)
  breaks_off :
      {b : ℕ} {state : State W} (retries : List Event) (attempt : ℕ) (w : W)
      → Retrying limit replacement 1 retries
      → (external_call attempt w).0.0 ≡ err (base_exception b)
      → state.events ≡ started ∷ retries
      → Reports timing limit replacement external_call (err (base_failure b), state)

pub data Runs {W V : Type 0} (timing : Timing W Signal) (limit : ℕ) (replacement : Option (W → W))
    (external_call : ℕ → W → (Result Raised (Completion V) × Bool) × W)
    : Option (Reported W V) → Type 0 where
  runs :
      {reported : Reported W V}
      → Reports timing limit replacement external_call reported
      → Runs timing limit replacement external_call (some reported)

some≢none : {A : Type 0} {x : A} → some x ≢ none
some≢none e = cc

module _ {W V : Type 0} (timing : Timing W Signal) (settings : Settings)
    (replacement : Option (W → W))
    (external_call : ℕ → W → (Result Raised (Completion V) × Bool) × W)
    (set_abandoned : ℕ → W → W) where
  failed-Reports :
      (e : LlmError) (state : State W) (retries : List Event)
      → Retrying settings.max_attempts replacement 1 retries
      → state.events ≡ started ∷ retries
      → Reports timing settings.max_attempts replacement external_call (report_failed e state)
  unfolding report_failed
  failed-Reports e state retries numbered same = fails retries numbered (rw same refl)

  after_end-Reports :
      (end : End (Completion V) Failure Signal) (state : State W) (retries : List Event)
      → Retrying settings.max_attempts replacement 1 retries
      → state.events ≡ started ∷ retries
      → Comes timing settings replacement external_call set_abandoned end
      → Reports timing settings.max_attempts replacement external_call
          (after_end timing settings replacement external_call set_abandoned end state)
  unfolding after_end after_completion
  after_end-Reports (value completion) state retries numbered same (from_value attempt w came) =
      elim (Bool-cases (is_filtered completion)) [
        | inl filtered ↦ rw filtered (failed-Reports content_filtered state retries numbered same)
        | inr passes ↦ elim (Option-cases (timing.set_signal state.world)) [
          | inl unset ↦
              rw (passes, unset)
                (succeeds retries attempt w numbered came passes unset (rw same refl))
          | inr (signal, is_set) ↦
              rw (passes, is_set) (failed-Reports _ state retries numbered same)
        ]
      ]
  after_end-Reports (failed (llm_failure e)) state retries numbered same comes =
      failed-Reports e state retries numbered same
  after_end-Reports (failed (base_failure b)) state retries numbered same
        (from_base attempt w came) =
      breaks_off retries attempt w numbered came same
  after_end-Reports (signalled signal) state retries numbered same comes =
      failed-Reports _ state retries numbered same

  attempts-Runs :
      (attempted : Option (End (Completion V) Failure Signal × List Bool × State W))
      → Ends
          (timing_of timing)
          settings
          (some (prepare_retry timing settings replacement external_call set_abandoned))
          (run_attempt timing settings replacement external_call set_abandoned)
          settings.max_attempts
          attempted
      → Logged timing settings replacement external_call set_abandoned 1 (started ∷ []) attempted
      → Runs timing settings.max_attempts replacement external_call
          (after_attempts timing settings replacement external_call set_abandoned attempted)
  attempts-Runs none (found, is, bounded, quiet) log = absurd (some≢none (sym is))
  attempts-Runs (some (end, emitted, state)) ends (logged retries numbered same comes) =
      runs (after_end-Reports end state retries numbered same comes)

-- A call ends, whatever its attempts do, if a sleep takes at least its time, and the poll interval
-- and max_attempts are positive. Its events are that it started; its retries, numbered from 2 up to
-- max_attempts, each after a retryable error and with partial output only if
-- start_replacement_stream supersedes it; and, unless an attempt raised an exception that is no
-- Exception, such as a KeyboardInterrupt, one last event: that it succeeded, and then it returns a
-- completion that an attempt returned and no content filter stopped, with no control signal set; or
-- the failure of the LLMError that it raises. An exception that is no Exception is raised with no last
-- event. As much fuel as there may be attempts is enough, and for each pause one round more than the
-- longest delay.
pub run-Runs :
    {W V : Type 0} (timing : Timing W Signal) (settings : Settings) (replacement : Option (W → W))
    (external_call : ℕ → W → (Result Raised (Completion V) × Bool) × W) (set_abandoned : ℕ → W → W)
    → SleepsEnough timing
    → 0 < settings.poll_interval
    → 0 < settings.max_attempts
    → (fuel rounds : ℕ) (refused : Option LlmError) (w : W) → settings.max_attempts ≤ fuel
    → settings.max_delay < rounds
    → Runs timing settings.max_attempts replacement external_call
        (run timing settings replacement external_call set_abandoned fuel rounds refused w)
unfolding run attempts run_with_retry
run-Runs timing settings replacement external_call set_abandoned sleeps polls some_attempts fuel
      rounds (some e) w room enough =
    runs
      (failed-Reports timing settings replacement external_call set_abandoned e _ [] no_more refl)
run-Runs timing settings replacement external_call set_abandoned sleeps polls some_attempts fuel
      rounds none w room enough =
    let begun : State _ = record { world = w; events = started ∷ [] } in
    attempts-Runs timing settings replacement external_call set_abandoned _
      (run_with_retry-Ends (timing_of timing) settings _ _ (λ n state. sleeps n state.world) polls
        some_attempts fuel rounds begun room enough)
      (retry_from-Logged timing settings replacement external_call set_abandoned fuel rounds 1
        begun)
